-- ===== src/Rules/Added.antt =====
-- What updateRule does with a rule that the kernel does not show.
use multi_networkpolicy_nfta.Nft.{Rule, Command, Libraries, NftState}
use multi_networkpolicy_nfta.Rules.{
  rule_equal, last_equal, find_rule, place_rule, store_rule, update_rule,
}
use multi_networkpolicy_nfta.Keys.{hash_rule}
use multi_networkpolicy_nfta.Base.{
  any, Bytes, ok, ◌≡◌, refl, Bool, true, false, none, List, [], ◌∷◌, ◌++◌, arith,
}

last_equal-none :
    (rule : Rule) (rs : List Rule)
    → any (λ r. rule_equal rule r) rs ≡ false
    → last_equal rule rs none ≡ none
unfolding last_equal
last_equal-none rule [] h = refl
last_equal-none rule (r ∷ rs) h = ground (arith, last_equal-none rule rs)

module _ ⦃lib : Libraries⦄ where
  -- An update, forced or not, of a rule that GetRules does not show, and whose key can be computed,
  -- sends that rule's action and nothing else, keeps the rule, and says that it is new.
  pub update_rule-adds :
      (rule : Rule) (action : Rule → Command) (force : Bool) (rules : List Rule) (key : Bytes)
      (s : NftState)
      → lib.get_rules s.sent rule.table rule.chain ≡ ok rules
      → any (λ r. rule_equal rule r) rules ≡ false
      → hash_rule rule ≡ ok key
      → update_rule rule action force s
        ≡ (ok true, record s { sent = s.sent ++ (action rule ∷ []); rules = (key, rule) ∷ s.rules })
  unfolding update_rule find_rule place_rule store_rule
  update_rule-adds rule action force rules key s h found hashed =
      ground (arith, last_equal-none rule rules found)
