-- ===== src/Cleanup/Samples.antt =====
-- A rule that the render asks for again, and one that it no longer wants.
use multi_networkpolicy_nfta.Nft.{
  Chain, accept, drop, verdict, counter, Rule, add_rule, Libraries, NftState,
}
use multi_networkpolicy_nfta.Nft.Fake.{fresh, filter_table, plain, start}
use multi_networkpolicy_nfta.Keys.{hash_rule}
use multi_networkpolicy_nfta.Fields.{user_data_comment, new_rule}
use multi_networkpolicy_nfta.Rules.{expr_equal, exprs_equal, rule_equal, update_rule}
use multi_networkpolicy_nfta.Rules.Samples.{fresh-ReadsAsked}
use multi_networkpolicy_nfta.Cleanup.{Sweep, is_stale, sweep_rules, cleanup_chains}
use multi_networkpolicy_nfta.Cleanup.Kept.{update_rule-spared, stale_deletions, sweep_rules-exact}
use multi_networkpolicy_nfta.Cleanup.Chains.{SentSparing, cleanup_chains-sparing}
use multi_networkpolicy_nfta.Base.{codes, ok, ◌≡◌, refl, true, false, [], ◌∷◌}

abbrev output_chain : Chain
output_chain = plain (codes "output")

abbrev kept_rule : Rule
kept_rule = new_rule filter_table output_chain (codes "kept") (counter 0 0 ∷ verdict accept [] ∷ [])

abbrev stale_rule : Rule
stale_rule = new_rule filter_table output_chain (codes "stale") (verdict drop [] ∷ [])

update_rule-spared_example :
    is_stale (update_rule kept_rule add_rule true start).1.rules kept_rule ≡ false
unfolding update_rule hash_rule rule_equal exprs_equal expr_equal user_data_comment
update_rule-spared_example =
    update_rule-spared fresh-ReadsAsked kept_rule add_rule true start
      (update_rule kept_rule add_rule true start).1 true kept_rule refl refl refl

abbrev nothing_yet : Sweep
nothing_yet = record { flush_needed = false; errors = [] }

sweep_rules-exact_example :
    (w : Sweep) × (sweep_rules (kept_rule ∷ stale_rule ∷ []) nothing_yet start
      ≡ (ok w, record start { sent = stale_deletions [] (kept_rule ∷ stale_rule ∷ []) }))
sweep_rules-exact_example = sweep_rules-exact (kept_rule ∷ stale_rule ∷ []) nothing_yet start

-- a kernel with two chains that hold no rule
abbrev two_chains : Libraries
two_chains = record fresh {
  list_chains_of_table_family = λ t family. ok (plain (codes "old") ∷ plain (codes "input") ∷ []);
}

abbrev rendered : NftState
rendered = record start {
  chains = (codes "multi-networkpolicy-filter-input", plain (codes "input")) ∷ [];
}

cleanup_chains-sparing_example :
    SentSparing ⦃lib = two_chains⦄ rendered (cleanup_chains ⦃lib = two_chains⦄ rendered).1
cleanup_chains-sparing_example = cleanup_chains-sparing ⦃lib = two_chains⦄ rendered
