-- ===== src/Packets/Empty.antt =====
-- What the writes of a render send to a kernel that has nothing of them yet.
use mathlib.Core.List.{append_assoc, append-nil}
use mathlib.Core.Path.{ap₂}
use multi_networkpolicy_nfta.Nft.{
  Table, Chain, NftSet, SetElement, Expr, meta, lookup, verdict, cmp, payload, ct_state, bitwise,
  counter, other, Rule, Command, new_chain, add_set, Transcript, RuleData, Libraries, NftState,
  Render,
}
use multi_networkpolicy_nfta.Keys.{
  digest, encoded, hash_text, hash_expr, cons_hash, hash_exprs, rule_data_of, new_rule_data,
  hash_data, hash_rule,
}
use multi_networkpolicy_nfta.Rules.{update_rule}
use multi_networkpolicy_nfta.Rules.Added.{update_rule-adds}
use multi_networkpolicy_nfta.Sets.{set_key, short_set_name, create_set, apply_set, update_set}
use multi_networkpolicy_nfta.Chains.{
  chain_id, short_chain_name, create_chain, place_chain, add_chain,
}
use multi_networkpolicy_nfta.Base.{
  ltb, Bool-cases, length, Bytes, not_exist, ok, continue, ◌>>=◌, pure, ℕ, ◌≡◌, refl, sym, ap, ◌∙◌,
  inl, inr, Bool, true, none, some, List, [], ◌∷◌, ◌++◌, arith,
}

-- Reads show nothing, as they do before the first flush on a new namespace; no write fails and gob
-- encodes all that it is given.
pub record EmptyKernel (lib : Libraries) : Type 0 where
  pub no_rules :
      (t : Transcript) (table : Table) (chain : Chain) → lib.get_rules t table chain ≡ ok []
  pub no_chain :
      (t : Transcript) (table : Table) (name : Bytes)
      → lib.list_chain t table name ≡ (none, some not_exist)
  pub no_set :
      (t : Transcript) (table : Table) (name : Bytes)
      → lib.get_set_by_name t table name ≡ (none, some not_exist)
  pub no_failure : (t : Transcript) (c : Command) → lib.outcome t c ≡ none
  pub encodes_text : (s : Bytes) → (b : Bytes) × (lib.gob_text s ≡ some b)
  pub encodes_expr : (e : Expr) → (b : Bytes) × (lib.gob_expr e ≡ some b)
  pub encodes_rule : (d : RuleData) → (b : Bytes) × (lib.gob_rule d ≡ some b)

-- From a state, the code succeeds with a value and sends these commands.
abbrev pub Sends : {A : Type 0} → Render A → NftState → A → Transcript → Type 0
Sends code s a cmds =
    (s' : NftState) × (code s ≡ (ok a, s')) × (s'.sent ≡ s.sent ++ cmds) × (s'.filter ≡ s.filter)

pub Sends-bind :
    {A B : Type 0} (m : Render A) (f : A → Render B) (s : NftState) (a : A) (b : B)
    (cs ds : Transcript)
    → (first : Sends m s a cs) → Sends (f a) first.0 b ds
    → Sends (m >>= f) s b (cs ++ ds)
Sends-bind m f s a b cs ds (s1, e, sent, frame) (s2, e', sent', frame') = (
  s2,
  rw (e, continue) e',
  sent' ∙ ap (λ t. t ++ ds) sent ∙ append_assoc s.sent cs ds,
  frame' ∙ frame,
)

pub Sends-none : {A : Type 0} (a : A) (s : NftState) → Sends (pure a) s a []
Sends-none a s = (s, refl, sym (append-nil s.sent), refl)

module _ ⦃lib : Libraries⦄ where
  hash_expr-ok : (empty : EmptyKernel lib) (e : Expr) → (h : Bytes) × (hash_expr e ≡ ok h)
  unfolding hash_expr
  hash_expr-ok empty e = let (b, q) = empty.encodes_expr e in (digest b, ap encoded q)

  hashed_cons :
      (empty : EmptyKernel lib) (e : Expr) (es : List Expr)
      → (hs : List Bytes) × (hash_exprs es ≡ ok hs)
      → (hs : List Bytes) × (cons_hash (hash_expr e) (hash_exprs es) ≡ ok hs)
  hashed_cons empty e es (hs, q) = let (h, k) = hash_expr-ok empty e in (h ∷ hs, ap₂ cons_hash k q)

  hash_exprs-ok :
      (empty : EmptyKernel lib) (es : List Expr) → (hs : List Bytes) × (hash_exprs es ≡ ok hs)
  unfolding hash_exprs
  hash_exprs-ok empty [] = ([], refl)
  hash_exprs-ok empty (counter p b ∷ es) = hash_exprs-ok empty es
  hash_exprs-ok empty (other n ∷ es) = hash_exprs-ok empty es
  hash_exprs-ok empty (meta k s r ∷ es) = hashed_cons empty (meta k s r) es (hash_exprs-ok empty es)
  hash_exprs-ok empty (lookup n i r ∷ es) =
      hashed_cons empty (lookup n i r) es (hash_exprs-ok empty es)
  hash_exprs-ok empty (verdict k c ∷ es) =
      hashed_cons empty (verdict k c) es (hash_exprs-ok empty es)
  hash_exprs-ok empty (cmp o r d ∷ es) = hashed_cons empty (cmp o r d) es (hash_exprs-ok empty es)
  hash_exprs-ok empty (payload b r o l ∷ es) =
      hashed_cons empty (payload b r o l) es (hash_exprs-ok empty es)
  hash_exprs-ok empty (ct_state r k ∷ es) =
      hashed_cons empty (ct_state r k) es (hash_exprs-ok empty es)
  hash_exprs-ok empty (bitwise r d l m x ∷ es) =
      hashed_cons empty (bitwise r d l m x) es (hash_exprs-ok empty es)

  abbrev to_data : Rule → List Bytes → RuleData
  to_data rule hashes = record {
    table = rule.table.name;
    chain = rule.chain.name;
    family = rule.table.family;
    user_data = rule.user_data;
    exprs = hashes;
  }

  hash_rule-ok : (empty : EmptyKernel lib) (rule : Rule) → (key : Bytes) × (hash_rule rule ≡ ok key)
  unfolding hash_rule new_rule_data
  hash_rule-ok empty rule =
      let (hs, q) = hash_exprs-ok empty rule.exprs in
      let (b, k) = empty.encodes_rule (to_data rule hs) in
      (digest b, ap (λ r. hash_data (rule_data_of rule r)) q ∙ ap encoded k)

  pub update_rule-Sends :
      (empty : EmptyKernel lib) (rule : Rule) (action : Rule → Command) (force : Bool)
      (s : NftState)
      → Sends (update_rule rule action force) s true (action rule ∷ [])
  update_rule-Sends empty rule action force s =
      let (key, hashed) = hash_rule-ok empty rule in
      (
        _,
        update_rule-adds rule action force [] key s (empty.no_rules s.sent rule.table rule.chain)
            refl hashed,
        refl,
        refl,
      )

  pub short_chain_name-ok :
      (empty : EmptyKernel lib) (chain : Chain)
      → (name : Bytes) × (short_chain_name chain ≡ ok (record chain { name = name }))
  unfolding short_chain_name hash_text
  short_chain_name-ok empty chain = elim (Bool-cases (ltb 31 (length chain.name))) [
    | inr short ↦ (chain.name, ground (arith, short))
    | inl long ↦ let (b, q) = empty.encodes_text chain.name in (digest b, ground (arith, long, q))
  ]

  -- the chain that is added may have a shorter name
  pub add_chain-Sends :
      (empty : EmptyKernel lib) (wanted added : Chain) (s : NftState)
      → short_chain_name wanted ≡ ok added
      → Sends (add_chain wanted) s added (new_chain added ∷ [])
  unfolding add_chain place_chain create_chain
  add_chain-Sends empty wanted added s q =
      let s' : NftState = record s {
        sent = s.sent ++ (new_chain added ∷ []);
        chains = (chain_id added, added) ∷ s.chains;
      } in
      (
        s',
        rw (q, add_chain) (rw (empty.no_chain s.sent added.table added.name, place_chain) refl),
        refl,
        refl,
      )

  short_set_name-ok :
      (empty : EmptyKernel lib) (set : NftSet)
      → (name : Bytes) × (short_set_name set ≡ ok (record set { name = name }))
  unfolding short_set_name hash_text
  short_set_name-ok empty set = elim (Bool-cases (ltb 31 (length set.name))) [
    | inr short ↦ (set.name, ground (arith, short))
    | inl long ↦ let (b, q) = empty.encodes_text set.name in (digest b, ground (arith, long, q))
  ]

  -- so does the set
  pub update_set-Sends :
      (empty : EmptyKernel lib) (set : NftSet) (elements : List SetElement) (s : NftState)
      → (name : Bytes) × (id : ℕ) × (let named : NftSet = record set { name = name } in
          Sends
            (update_set set elements)
            s
            (record named { id = id })
            (add_set named elements ∷ []))
  unfolding update_set apply_set create_set
  update_set-Sends empty set elements s =
      let (name, q) = short_set_name-ok empty set in
      let named : NftSet = record set { name = name } in
      let created : NftSet = record named { id = lib.new_set_id s.sent named } in
      let s' : NftState = record s {
        sent = s.sent ++ (add_set named elements ∷ []);
        sets = (set_key named, created) ∷ s.sets;
      } in
      (
        name,
        lib.new_set_id s.sent named,
        (
          s',
          rw (q, update_set)
              (rw (empty.no_set s.sent set.table name, apply_set)
                (rw (empty.no_failure s.sent (add_set named elements), create_set) refl)),
          refl,
          refl,
        ),
      )
