-- ===== src/Render/Samples.antt =====
-- A policy that denies all ingress of a pod.
use multi_networkpolicy_nfta.Render.{
  InternalPolicy, policy_networks_of, apply_direction, apply_policy_rules_for_pod_and_family,
}
use multi_networkpolicy_nfta.Render.Order.{apply_policy_rules_for_pod_and_family-Reordered}
use multi_networkpolicy_nfta.Render.DefaultDeny.{drop_rule}
use multi_networkpolicy_nfta.Render.Growth.{update_rule-spared_later}
use multi_networkpolicy_nfta.Rules.{expr_equal, exprs_equal, rule_equal, update_rule}
use multi_networkpolicy_nfta.Rules.Samples.{fresh-ReadsAsked}
use multi_networkpolicy_nfta.Cleanup.{is_stale}
use multi_networkpolicy_nfta.CommonRules.{apply_common_chain_rules}
use multi_networkpolicy_nfta.Keys.{hash_rule}
use multi_networkpolicy_nfta.Fields.{policy_namespaced_name, user_data_comment}
use multi_networkpolicy_nfta.Cluster.{Policy}
use multi_networkpolicy_nfta.Cluster.Fake.{
  quiet_cluster, web_pod, web_info, deny_policy, no_options,
}
use multi_networkpolicy_nfta.Nft.{Chain, add_rule, NftState}
use multi_networkpolicy_nfta.Nft.Fake.{fresh, plain, start}
use multi_networkpolicy_nfta.Base.{codes, exchanged, ◌≡◌, refl, ◌≢◌, true, false, [], ◌∷◌}

abbrev chosen_deny : InternalPolicy
chosen_deny = record {
  policy = deny_policy;
  policy_networks = policy_networks_of deny_policy (codes "net1");
}

abbrev after_deny : NftState
after_deny =
    (apply_direction ⦃lib = fresh⦄ quiet_cluster (plain (codes "multi-ingress")) web_info
      (chosen_deny ∷ []) start).1

abbrev allow_policy : Policy
allow_policy = record deny_policy { name = codes "allow" }

names_differ : policy_namespaced_name deny_policy ≢ policy_namespaced_name allow_policy
names_differ e = cc e

apply_policy_rules_for_pod_and_family-Reordered_example :
    apply_policy_rules_for_pod_and_family ⦃lib = fresh⦄ quiet_cluster no_options
      (deny_policy ∷ allow_policy ∷ [])
      web_pod
      web_info
      []
    ≡ apply_policy_rules_for_pod_and_family ⦃lib = fresh⦄ quiet_cluster no_options
        (allow_policy ∷ deny_policy ∷ [])
        web_pod
        web_info
        []
apply_policy_rules_for_pod_and_family-Reordered_example =
    apply_policy_rules_for_pod_and_family-Reordered ⦃lib = fresh⦄ quiet_cluster no_options
      (deny_policy ∷ allow_policy ∷ []) (allow_policy ∷ deny_policy ∷ []) web_pod web_info []
      (exchanged deny_policy allow_policy names_differ)

abbrev entry : Chain
entry = plain (codes "multi-ingress")

abbrev after_drop : NftState
after_drop = (update_rule ⦃lib = fresh⦄ (drop_rule ⦃lib = fresh⦄ entry) add_rule false start).1

update_rule-spared_later_example :
    (is_stale ⦃lib = fresh⦄
        (apply_common_chain_rules ⦃lib = fresh⦄ no_options after_drop).1.rules
        (drop_rule ⦃lib = fresh⦄ entry)
      ≡ false)
    × (is_stale ⦃lib = fresh⦄
          (apply_direction ⦃lib = fresh⦄ quiet_cluster entry web_info
            (chosen_deny ∷ [])
            after_drop).1.rules
          (drop_rule ⦃lib = fresh⦄ entry)
        ≡ false)
unfolding update_rule hash_rule rule_equal exprs_equal expr_equal user_data_comment
update_rule-spared_later_example =
    update_rule-spared_later ⦃lib = fresh⦄ quiet_cluster fresh-ReadsAsked
      (drop_rule ⦃lib = fresh⦄ entry) add_rule false start after_drop true
      (drop_rule ⦃lib = fresh⦄ entry) no_options entry web_info (chosen_deny ∷ []) refl refl refl
