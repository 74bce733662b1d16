-- ===== src/Rules/Samples.antt =====
-- A jump rule that is new, and one that the kernel holds already.
use multi_networkpolicy_nfta.Rules.{expr_equal, exprs_equal, rule_equal, update_rule}
use multi_networkpolicy_nfta.Rules.Update.{ReadsAsked, rules-update_rule}
use multi_networkpolicy_nfta.Rules.Equal.{hash_rule-rule_equal}
use multi_networkpolicy_nfta.Keys.{hash_rule}
use multi_networkpolicy_nfta.Nft.{
  Chain, jump, verdict, counter, Rule, add_rule, insert_rule, Libraries, Render,
}
use multi_networkpolicy_nfta.Nft.Fake.{fresh, filter_table, plain, start}
use multi_networkpolicy_nfta.Fields.{user_data_comment, new_rule}
use multi_networkpolicy_nfta.Base.{Bytes, codes, ok, ◌≡◌, refl, Bool, true, false, [], ◌∷◌, arith}

abbrev input_chain : Chain
input_chain = plain (codes "input")

abbrev jump_rule : Rule
jump_rule =
    new_rule filter_table input_chain (codes "jump")
      (counter 0 0 ∷ verdict jump (codes "multi-ingress") ∷ [])

-- the same, with a handle and a counter that has counted
abbrev held_rule : Rule
held_rule = record jump_rule {
  exprs = counter 7 900 ∷ verdict jump (codes "multi-ingress") ∷ [];
  handle = 12;
}

-- a kernel that holds the rule
abbrev holding : Libraries
holding = record fresh { get_rules = λ t table chain. ok (held_rule ∷ []) }

pub fresh-ReadsAsked : ReadsAsked fresh
fresh-ReadsAsked = record {
  asked = λ t table chain rules h. let e : rules ≡ [] = ground arith in rw e tt;
}

hash_rule-rule_equal_example : hash_rule jump_rule ≡ hash_rule held_rule
unfolding rule_equal exprs_equal expr_equal user_data_comment
hash_rule-rule_equal_example = hash_rule-rule_equal jump_rule held_rule refl refl

rules-update_rule_example :
    (key : Bytes) × (kept : Rule) × (hash_rule jump_rule ≡ ok key)
    × (hash_rule kept ≡ ok key)
    × ((update_rule jump_rule add_rule false start).1.rules ≡ (key, kept) ∷ [])
unfolding update_rule hash_rule
rules-update_rule_example =
    rules-update_rule fresh-ReadsAsked jump_rule add_rule false start
      (update_rule jump_rule add_rule false start).1 true refl

-- a forced update of the rule that the kernel holds
abbrev renewal : Render Bool
renewal = update_rule ⦃lib = holding⦄ jump_rule insert_rule true
