-- ===== src/Rules/Equal.antt =====
-- What equality of rules means, and that equal rules have one key.
use multi_networkpolicy_nfta.Nft.{
  MetaKey, VerdictKind, CmpOp, PayloadBase, Expr, meta, lookup, verdict, cmp, payload, ct_state,
  bitwise, counter, other, Rule, Libraries,
}
use multi_networkpolicy_nfta.Rules.{
  meta_key_number, verdict_number, cmp_number, base_number, same_bool, expr_equal, exprs_equal,
  rule_equal,
}
use multi_networkpolicy_nfta.Keys.{hash_exprs, hash_rule}
use multi_networkpolicy_nfta.Base.{
  &&_iff, length, eq_bytes_iff, ◌≡◌, refl, ◌⊎◌, inl, inr, Bool, true, false, List, [], ◌∷◌, arith,
}

same_bool→eq : (a b : Bool) → same_bool a b ≡ true → a ≡ b
same_bool→eq true b h = ground arith
same_bool→eq false b h = ground arith

meta_key_inj : (a b : MetaKey) → meta_key_number a ≡ meta_key_number b → a ≡ b
meta_key_inj a b h = ground arith

verdict_inj : (a b : VerdictKind) → verdict_number a ≡ verdict_number b → a ≡ b
verdict_inj a b h = ground arith

cmp_inj : (a b : CmpOp) → cmp_number a ≡ cmp_number b → a ≡ b
cmp_inj a b h = ground arith

base_inj : (a b : PayloadBase) → base_number a ≡ base_number b → a ≡ b
base_inj a b h = ground arith

-- Two counters, whatever they count.
abbrev BothCounters : Expr → Expr → Type 0
BothCounters (counter _ _) (counter _ _) = Unit
BothCounters _ _ = ⊥

expr_equal→eq : (e f : Expr) → expr_equal e f ≡ true → (e ≡ f) ⊎ BothCounters e f
unfolding expr_equal
expr_equal→eq (meta k s r) (meta k' s' r') h =
    inl (ground (arith, meta_key_inj k k', same_bool→eq s s'))
expr_equal→eq (lookup n i s) (lookup n' i' s') h = inl (ground (arith, eq_bytes_iff n n'))
expr_equal→eq (verdict k c) (verdict k' c') h =
    inl (ground (arith, verdict_inj k k', eq_bytes_iff c c'))
expr_equal→eq (cmp o r d) (cmp o' r' d') h = inl (ground (arith, cmp_inj o o', eq_bytes_iff d d'))
expr_equal→eq (payload b r o n) (payload b' r' o' n') h = inl (ground (arith, base_inj b b'))
expr_equal→eq (ct_state r s) (ct_state r' s') h = inl (ground (arith, same_bool→eq s s'))
expr_equal→eq (bitwise s d n m x) (bitwise s' d' n' m' x') h =
    inl (ground (arith, eq_bytes_iff m m', eq_bytes_iff x x'))
expr_equal→eq (counter _ _) (counter _ _) h = inr tt
expr_equal→eq _ _ h = cc

module _ ⦃lib : Libraries⦄ where
  hash_exprs-cons :
      (e f : Expr) (es fs : List Expr)
      → (e ≡ f) ⊎ BothCounters e f
      → hash_exprs es ≡ hash_exprs fs
      → hash_exprs (e ∷ es) ≡ hash_exprs (f ∷ fs)
  unfolding hash_exprs
  hash_exprs-cons (counter _ _) (counter _ _) es fs (inr h) r = r
  hash_exprs-cons (meta k s r) f es fs (inl h) r' = rw (← h) (rw r')
  hash_exprs-cons (lookup k s r) f es fs (inl h) r' = rw (← h) (rw r')
  hash_exprs-cons (verdict k s) f es fs (inl h) r' = rw (← h) (rw r')
  hash_exprs-cons (cmp k s r) f es fs (inl h) r' = rw (← h) (rw r')
  hash_exprs-cons (payload a b c d) f es fs (inl h) r' = rw (← h) (rw r')
  hash_exprs-cons (ct_state a b) f es fs (inl h) r' = rw (← h) (rw r')
  hash_exprs-cons (bitwise a b c d x) f es fs (inl h) r' = rw (← h) (rw r')
  hash_exprs-cons (counter a b) f es fs (inl h) r' = rw (← h) r'
  hash_exprs-cons (other a) f es fs (inl h) r' = rw (← h) r'
  hash_exprs-cons _ _ es fs (inr h) r' = absurd h

  hash_exprs-eq :
      (es fs : List Expr)
      → length es ≡ length fs
      → exprs_equal es fs ≡ true
      → hash_exprs es ≡ hash_exprs fs
  unfolding exprs_equal
  hash_exprs-eq [] [] n h = refl
  hash_exprs-eq [] (f ∷ fs) n h = absurd (omega arith)
  hash_exprs-eq (e ∷ es) [] n h = cc
  hash_exprs-eq (e ∷ es) (f ∷ fs) n h =
      let both = (&&_iff (expr_equal e f) (exprs_equal es fs)).0 h in
      hash_exprs-cons e f es fs (expr_equal→eq e f both.0)
        (hash_exprs-eq es fs (omega arith) both.1)

-- The five tests of `rule_equal`.
record SameRule (a b : Rule) : Type 0 where
  chain_name : a.chain.name ≡ b.chain.name
  table_name : a.table.name ≡ b.table.name
  exprs_length : length a.exprs ≡ length b.exprs
  user_data : a.user_data ≡ b.user_data
  exprs : exprs_equal a.exprs b.exprs ≡ true

rule_equal-SameRule : (a b : Rule) → rule_equal a b ≡ true → SameRule a b
unfolding rule_equal
rule_equal-SameRule a b h = ground (
  arith,
  eq_bytes_iff a.chain.name b.chain.name,
  eq_bytes_iff a.table.name b.table.name,
  eq_bytes_iff a.user_data b.user_data,
)

module _ ⦃lib : Libraries⦄ where
  -- Two rules that `rule_equal` takes for the same have the same key, whatever their counters
  -- count, if their tables are of one family.
  pub hash_rule-rule_equal :
      (a b : Rule)
      → rule_equal a b ≡ true
      → a.table.family ≡ b.table.family
      → hash_rule a ≡ hash_rule b
  unfolding hash_rule
  hash_rule-rule_equal a b h fam =
      let s = rule_equal-SameRule a b h in
      rw (hash_exprs-eq a.exprs b.exprs s.exprs_length s.exprs)
        (rw s.chain_name (rw s.table_name (rw s.user_data (rw fam))))
