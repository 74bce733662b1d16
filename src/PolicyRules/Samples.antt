-- ===== src/PolicyRules/Samples.antt =====
-- A policy with rules for both directions, on the ingress chain of a pod.
use multi_networkpolicy_nfta.PolicyRules.{apply_pod_rules}
use multi_networkpolicy_nfta.PolicyRules.OwnSide.{apply_pod_rules-own_side}
use multi_networkpolicy_nfta.Chains.{ingress_chain_name}
use multi_networkpolicy_nfta.Cluster.{PolicyRule, Policy}
use multi_networkpolicy_nfta.Cluster.Fake.{quiet_cluster, web_info, deny_policy}
use multi_networkpolicy_nfta.Nft.Fake.{fresh, filter_table, start}
use multi_networkpolicy_nfta.Nft.{Chain}
use multi_networkpolicy_nfta.Base.{codes, ◌≡◌, refl, inl, none, some, [], ◌∷◌}

abbrev entry_chain : Chain
entry_chain = record { name = ingress_chain_name; table = filter_table; base = none }

-- a rule that names no port and no peer
abbrev open_rule : PolicyRule
open_rule = record { ports = []; peers = [] }

abbrev two_way_policy : Policy
two_way_policy = record deny_policy {
  ingress = some (open_rule ∷ []);
  egress = some (open_rule ∷ open_rule ∷ []);
}

apply_pod_rules-own_side_example :
    apply_pod_rules ⦃lib = fresh⦄ quiet_cluster entry_chain web_info
      (record two_way_policy { egress = none })
      (codes "team/net1" ∷ [])
      start
    ≡ apply_pod_rules ⦃lib = fresh⦄ quiet_cluster entry_chain web_info two_way_policy
        (codes "team/net1" ∷ [])
        start
apply_pod_rules-own_side_example =
    apply_pod_rules-own_side ⦃lib = fresh⦄ quiet_cluster entry_chain web_info two_way_policy
      (codes "team/net1" ∷ []) none start (inl refl)
