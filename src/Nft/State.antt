-- ===== src/Nft/State.antt =====
-- `nftState`: what a render of one pod has written, and the rules, sets and chains that it keeps.
use multi_networkpolicy_nfta.Base.{
  Bool, Option, none, some, List, [], ◌∷◌, ◌++◌, Bytes, Result, ok, err, Err, Exec, eq_bytes, any,
}
use multi_networkpolicy_nfta.Nft.Objects.{Table, Chain, NftSet, Rule, Command, Transcript}
use multi_networkpolicy_nfta.Nft.Calls.{Libraries}

-- The tables and chains are set once, by the bootstrap; `rules`, `sets` and `chains` are Go maps of
-- which the code asks only whether a key is present.
pub record NftState : Type 0 where
  pub sent : Transcript
  pub filter : Table
  pub nat : Table
  pub input : Chain
  pub output : Chain
  pub prerouting : Chain
  pub ingress_chain : Chain
  pub egress_chain : Chain
  pub common_ingress_chain : Chain
  pub common_egress_chain : Chain
  pub rules : List (Bytes × Rule)
  pub sets : List (Bytes × NftSet)
  pub chains : List (Bytes × Chain)

-- `_, exists := m[key]`
abbrev pub has_key {ℓ} : {V : Type ℓ} → Bytes → List (Bytes × V) → Bool
has_key k = any (λ kv. eq_bytes k kv.0)

-- An action on the connection alone, before the state exists.
abbrev pub Conn : Type 0 → Type 0
Conn A = Exec Transcript A

abbrev pub Render : Type 0 → Type 0
Render A = Exec NftState A

abbrev pub on_conn : {A : Type 0} → Conn A → Render A
on_conn m s = let (r, t) = m s.sent in (r, record s { sent = t })

-- A write whose call returns no error.
abbrev pub send : Command → Conn (Unit {0})
send c t = (ok tt, t ++ (c ∷ []))

abbrev answer : Option Err → Result (Unit {0})
answer none = ok tt
answer (some e) = err e

module _ ⦃lib : Libraries⦄ where
  -- A write whose call may fail.
  abbrev pub attempt : Command → Conn (Unit {0})
  attempt c t = (answer (lib.outcome t c), t ++ (c ∷ []))

-- A read of the connection.
abbrev pub ask : {A : Type 0} → (Transcript → Result A) → Render A
ask f s = (f s.sent, s)

abbrev pub gets : {A : Type 0} → (NftState → A) → Render A
gets f s = (ok (f s), s)

-- `n.rules[key] = rule`, and so for sets and chains
abbrev pub keep_rule : Bytes → Rule → Render (Unit {0})
keep_rule key rule s = (ok tt, record s { rules = (key, rule) ∷ s.rules })

abbrev pub keep_set : Bytes → NftSet → Render (Unit {0})
keep_set key set s = (ok tt, record s { sets = (key, set) ∷ s.sets })

abbrev pub keep_chain : Bytes → Chain → Render (Unit {0})
keep_chain key chain s = (ok tt, record s { chains = (key, chain) ∷ s.chains })
