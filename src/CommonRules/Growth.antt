-- ===== src/CommonRules/Growth.antt =====
-- The keys of kept rules across the common rules.
use multi_networkpolicy_nfta.Nft.{Chain, SetElement, add_rule, insert_rule, Libraries, gets}
use multi_networkpolicy_nfta.CommonRules.{
  allow_icmp, ndp_elements, allow_neighbor_discovery, allow_prefixes, apply_common_prefix_rules,
  allow_conntracked, apply_common_chain_rules,
}
use multi_networkpolicy_nfta.Rules.Growth.{
  Grows, Grows-gets, Grows-lift, Grows-bind, Grows-when, Grows-rule,
}
use multi_networkpolicy_nfta.Sets.Growth.{update_set-Grows}
use multi_networkpolicy_nfta.Cluster.{CommonRuleConfig}
use multi_networkpolicy_nfta.Sets.{update_set}
use multi_networkpolicy_nfta.Prefixes.{get_prefixes_as_set_interval}
use multi_networkpolicy_nfta.Chains.{common}
use multi_networkpolicy_nfta.Base.{is_empty, Bytes, lift, Keeps-if, Bool, true, false, not, List}

module _ ⦃lib : Libraries⦄ where
  allow_icmp-Grows : (chain : Chain) (icmpv6 : Bool) → Grows (allow_icmp chain icmpv6)
  unfolding allow_icmp
  allow_icmp-Grows chain icmpv6 =
      Grows-bind (gets (λ s. s.filter)) _ (Grows-gets (λ s. s.filter))
        (λ n. Grows-rule _ add_rule false)

  allow_neighbor_discovery-Grows : (chain : Chain) → Grows (allow_neighbor_discovery chain)
  unfolding allow_neighbor_discovery
  allow_neighbor_discovery-Grows chain =
      Grows-bind (gets (λ s. s.filter)) _ (Grows-gets (λ s. s.filter)) (λ n.
        Grows-bind (update_set _ ndp_elements) _ (update_set-Grows _ ndp_elements)
          (λ _. Grows-rule _ insert_rule false))

  allow_prefixes-Grows :
      (chain : Chain) (prefix : Bytes) (is_v6 : Bool) (elements : List SetElement)
      → Grows (allow_prefixes chain prefix is_v6 elements)
  unfolding allow_prefixes
  allow_prefixes-Grows chain prefix is_v6 elements = Grows-when (not (is_empty elements)) _ (
      Grows-bind (gets (λ s. s.filter)) _ (Grows-gets (λ s. s.filter)) (λ n.
        Grows-bind (update_set _ elements) _ (update_set-Grows _ elements)
          (λ _. Grows-rule _ add_rule false)))

  apply_common_prefix_rules-Grows :
      (chain : Chain) (prefixes : List Bytes) (prefix : Bytes)
      → Grows (apply_common_prefix_rules chain prefixes prefix)
  unfolding apply_common_prefix_rules
  apply_common_prefix_rules-Grows chain prefixes prefix =
      let both = get_prefixes_as_set_interval prefixes in
      Grows-bind (lift both) _ (Grows-lift both) (λ vs.
        Grows-bind _ _ (allow_prefixes-Grows chain prefix false vs.0)
          (λ _. allow_prefixes-Grows chain prefix true vs.1))

  allow_conntracked-Grows : (chain : Chain) → Grows (allow_conntracked chain)
  unfolding allow_conntracked
  allow_conntracked-Grows chain =
      Grows-bind (gets (λ s. s.filter)) _ (Grows-gets (λ s. s.filter))
        (λ n. Grows-rule _ add_rule false)

  pub apply_common_chain_rules-Grows :
      (cfg : CommonRuleConfig) → Grows (apply_common_chain_rules cfg)
  unfolding apply_common_chain_rules
  apply_common_chain_rules-Grows cfg =
      Grows-bind (gets (λ s. s.common_ingress_chain)) _ (Grows-gets (λ s. s.common_ingress_chain))
        (λ ingress.
          Grows-bind (gets (λ s. s.common_egress_chain)) _ (Grows-gets (λ s. s.common_egress_chain))
            (λ egress.
              Grows-bind _ _
                (λ key.
                  Keeps-if cfg.accept_icmpv6 _ _
                    (λ _.
                      Grows-bind _ _ (allow_icmp-Grows ingress true)
                        (λ _. allow_icmp-Grows egress true) key)
                    (λ _.
                      Grows-bind _ _ (allow_neighbor_discovery-Grows ingress)
                        (λ _. allow_neighbor_discovery-Grows egress) key))
                (λ _.
                  Grows-bind _ _
                    (Grows-when cfg.accept_icmp _ (
                      Grows-bind _ _ (allow_icmp-Grows ingress false)
                        (λ _. allow_icmp-Grows egress false)))
                    (λ _.
                      Grows-bind _ _
                        (Grows-when (not (is_empty cfg.allow_src_prefix)) _
                          (apply_common_prefix_rules-Grows ingress cfg.allow_src_prefix common))
                        (λ _.
                          Grows-bind _ _
                            (Grows-when (not (is_empty cfg.allow_dst_prefix)) _
                              (apply_common_prefix_rules-Grows egress cfg.allow_dst_prefix common))
                            (λ _.
                              Grows-bind _ _ (allow_conntracked-Grows ingress)
                                (λ _. allow_conntracked-Grows egress)))))))
