-- ===== src/Rules.antt =====
-- Rules: ruleEqual, exprEqual, findRule and updateRule of pkg/server/netfilterrules.go.
pub mod Growth
pub mod Sent
pub mod Update
pub mod Samples
pub mod Added
pub mod Equal
use multi_networkpolicy_nfta.Nft.{
  MetaKey, key_iifname, key_oifname, key_l4proto, key_nfproto, key_mark, VerdictKind, jump, goto,
  accept, drop, return, CmpOp, cmp_eq, cmp_neq, PayloadBase, network_header, transport_header, Expr,
  meta, lookup, verdict, cmp, payload, ct_state, bitwise, counter, Rule, Command, del_rule,
  Libraries, Render, on_conn, send, attempt, ask, keep_rule,
}
use multi_networkpolicy_nfta.Keys.{hash_rule}
use multi_networkpolicy_nfta.Base.{
  ◌==◌, if◌then◌else◌, length, eq_bytes, ◌>>=◌, ◌>>◌, pure, lift, ℕ, Bool, true, false, not, ◌&&◌,
  Option, none, some, List, [], ◌∷◌,
}

abbrev meta_key_number : MetaKey → ℕ
meta_key_number key_iifname = 0
meta_key_number key_oifname = 1
meta_key_number key_l4proto = 2
meta_key_number key_nfproto = 3
meta_key_number key_mark = 4

abbrev verdict_number : VerdictKind → ℕ
verdict_number jump = 0
verdict_number goto = 1
verdict_number accept = 2
verdict_number drop = 3
verdict_number return = 4

abbrev cmp_number : CmpOp → ℕ
cmp_number cmp_eq = 0
cmp_number cmp_neq = 1

abbrev base_number : PayloadBase → ℕ
base_number network_header = 0
base_number transport_header = 1

abbrev same_bool : Bool → Bool → Bool
same_bool true b = b
same_bool false b = not b

-- One round of the loop of `ruleEqual`: `exprEqual` is reflect.DeepEqual at one type, a counter
-- equals any counter, and an expression of another type equals nothing.
unfoldable pub expr_equal : Expr → Expr → Bool
expr_equal (meta k s r) (meta k' s' r') =
    meta_key_number k == meta_key_number k' && same_bool s s' && r == r'
expr_equal (lookup n i s) (lookup n' i' s') = eq_bytes n n' && i == i' && s == s'
expr_equal (verdict k c) (verdict k' c') = verdict_number k == verdict_number k' && eq_bytes c c'
expr_equal (cmp o r d) (cmp o' r' d') = cmp_number o == cmp_number o' && r == r' && eq_bytes d d'
expr_equal (payload b r o n) (payload b' r' o' n') =
    base_number b == base_number b' && r == r' && o == o' && n == n'
expr_equal (ct_state r s) (ct_state r' s') = r == r' && same_bool s s'
expr_equal (bitwise s d n m x) (bitwise s' d' n' m' x') =
    s == s' && d == d' && n == n' && eq_bytes m m' && eq_bytes x x'
expr_equal (counter _ _) (counter _ _) = true
expr_equal _ _ = false

-- The loop; the lengths have been compared before it.
unfoldable pub exprs_equal : List Expr → List Expr → Bool
exprs_equal [] fs = true
exprs_equal (e ∷ es) [] = false
exprs_equal (e ∷ es) (f ∷ fs) = expr_equal e f && exprs_equal es fs

unfoldable pub rule_equal : Rule → Rule → Bool
rule_equal a b =
    if not (eq_bytes a.chain.name b.chain.name)
    then false
    else if not (eq_bytes a.table.name b.table.name)
    then false
    else if not (length a.exprs == length b.exprs)
    then false
    else if not (eq_bytes a.user_data b.user_data)
    then false
    else exprs_equal a.exprs b.exprs

-- `existing` after the loop of `findRule`: the last rule of the chain that equals `rule`.
pub last_equal : Rule → List Rule → Option Rule → Option Rule
last_equal rule [] existing = existing
last_equal rule (r ∷ rs) existing =
    last_equal rule rs (if rule_equal rule r then some r else existing)

-- The loop that puts the counter of the existing rule in place of the new rule's first counter.
replace_counter : Expr → List Expr → List Expr
replace_counter c [] = []
replace_counter c (counter _ _ ∷ es) = c ∷ es
replace_counter c (e ∷ es) = e ∷ replace_counter c es

pub copy_counter : List Expr → List Expr → List Expr
copy_counter [] exprs = exprs
copy_counter (counter p b ∷ es) exprs = replace_counter (counter p b) exprs
copy_counter (e ∷ es) exprs = copy_counter es exprs

module _ ⦃lib : Libraries⦄ where
  pub find_rule : Rule → Render (Option Rule)
  unfolding last_equal
  find_rule rule = do
    rules ← ask (λ t. lib.get_rules t rule.table rule.chain)
    pure (last_equal rule rules none)

  -- The three branches before the key is stored: the rule that is kept, and `isNew`. The action is
  -- `AddRule` or `InsertRule`.
  place_rule : Rule → (Rule → Command) → Bool → Option Rule → Render (Rule × Bool)
  place_rule rule action force_update none = do on_conn (send (action rule)); pure (rule, true)
  place_rule rule action false (some existing) = pure (existing, false)
  place_rule rule action true (some existing) = do
    let updated = record rule { exprs = copy_counter existing.exprs rule.exprs }
    on_conn (attempt (del_rule existing))
    on_conn (send (action updated))
    pure (updated, false)

  -- the part behind the branches
  store_rule : Rule × Bool → Render Bool
  store_rule (kept, is_new) = do key ← lift (hash_rule kept); keep_rule key kept; pure is_new

  unfoldable pub update_rule : Rule → (Rule → Command) → Bool → Render Bool
  unfolding find_rule place_rule store_rule copy_counter replace_counter rule_equal expr_equal
      exprs_equal
  update_rule rule action force_update = do
    existing ← find_rule rule
    placed ← place_rule rule action force_update existing
    store_rule placed
