-- ===== src/Packets/Chain.antt =====
-- What a chain does to a packet: its rules in order, with jumps and returns.
use mathlib.Core.Path.{subst}
use multi_networkpolicy_nfta.Packets.{Vm, Step, goes_on, decided, run_rule}
use multi_networkpolicy_nfta.Nft.{
  VerdictKind, jump, goto, accept, drop, return, Expr, Command, add_rule, insert_rule, Transcript,
}
use multi_networkpolicy_nfta.Base.{
  if◌then◌else◌, Bytes, eq_bytes, ℕ, zero, suc, ◌≡◌, refl, sym, ap, List, [], ◌∷◌, ◌++◌,
}

-- the rules of the chain of a name after a write that deletes nothing: AddRule puts a rule behind the
-- others, InsertRule in front of them
abbrev pub write_on : Bytes → Command → List (List Expr) → List (List Expr)
write_on name (add_rule r) rules =
    if eq_bytes r.chain.name name then rules ++ (r.exprs ∷ []) else rules
write_on name (insert_rule r) rules = if eq_bytes r.chain.name name then r.exprs ∷ rules else rules
write_on name _ rules = rules

abbrev pub rules_after : Bytes → List (List Expr) → Transcript → List (List Expr)
rules_after name rules [] = rules
rules_after name rules (c ∷ t) = rules_after name (write_on name c rules) t

-- The end of a chain, or a return, with the mark; or a verdict on the packet.
pub data ChainEnd : Type 0 where
  falls : ℕ → ChainEnd
  stops : VerdictKind → ChainEnd

-- `jump_to` is what the other chains do.
module _ (step : Expr → Vm → Step) (jump_to : Bytes → ℕ → ChainEnd) where
  abbrev pub run_rules : List (List Expr) → ℕ → ChainEnd
  run_rules [] m = falls m
  run_rules (r ∷ rs) m = elim (run_rule step r m) [
    | goes_on m' ↦ run_rules rs m'
    | decided kind target m' ↦ elim kind [
      | jump ↦ elim (jump_to target m') [ falls m'' ↦ run_rules rs m'' | stops k ↦ stops k ]
      | goto ↦ jump_to target m'
      | accept ↦ stops accept
      | drop ↦ stops drop
      | return ↦ falls m'
    ]
  ]

-- Every rule of a list leaves the packet to the next one.
module _ (step : Expr → Vm → Step) where
  abbrev pub Passes : List (List Expr) → ℕ → ℕ → Type 0
  Passes [] m m' = m ≡ m'
  Passes (r ∷ rs) m m' = (m1 : ℕ) × (run_rule step r m ≡ goes_on m1) × Passes rs m1 m'

  pub Passes-append :
      (rs qs : List (List Expr)) (m m1 m2 : ℕ)
      → Passes rs m m1
      → Passes qs m1 m2
      → Passes (rs ++ qs) m m2
  Passes-append [] qs m m1 m2 e p = subst (λ k. Passes qs k m2) (sym e) p
  Passes-append (r ∷ rs) qs m m1 m2 (m0, e, p) q = (m0, e, Passes-append rs qs m0 m1 m2 p q)

  pub run_rules-Passes :
      (jump_to : Bytes → ℕ → ChainEnd) (rs qs : List (List Expr)) (m m' : ℕ)
      → Passes rs m m'
      → run_rules step jump_to (rs ++ qs) m ≡ run_rules step jump_to qs m'
  run_rules-Passes jump_to [] qs m m' e = ap (run_rules step jump_to qs) e
  run_rules-Passes jump_to (r ∷ rs) qs m m' (m1, e, p) =
      rw (e, run_rules) (run_rules-Passes jump_to rs qs m1 m' p)

pub rules_after-append :
    (name : Bytes) (rules : List (List Expr)) (t u : Transcript)
    → rules_after name rules (t ++ u) ≡ rules_after name (rules_after name rules t) u
rules_after-append name rules [] u = refl
rules_after-append name rules (c ∷ t) u = rules_after-append name (write_on name c rules) t u

-- A chain that a list of writes has filled. The kernel bounds the depth of the jumps.
module _ (step : Expr → Vm → Step) (cmds : Transcript) where
  abbrev pub run_chain : ℕ → Bytes → ℕ → ChainEnd
  run_chain zero name m = stops drop
  run_chain (suc depth) name m = run_rules step (run_chain depth) (rules_after name [] cmds) m
