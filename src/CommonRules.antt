-- ===== src/CommonRules.antt =====
-- The rules that hold for every policy: allowICMP, allowNeighborDiscovery, applyCommonPrefixRules,
-- allowConntracked and applyCommonChainRules of pkg/server/netfilterrules.go.
pub mod Growth
use multi_networkpolicy_nfta.Nft.{
  Chain, icmp6_key, SetElement, key_l4proto, accept, cmp_eq, cmp_neq, transport_header, meta,
  lookup, verdict, cmp, payload, ct_state, bitwise, counter, add_rule, insert_rule, Libraries,
  Render, gets,
}
use multi_networkpolicy_nfta.Fields.{
  ipproto_icmp, ipproto_icmpv6, nfproto_ipv6, proto_ipv4, proto_ipv6, zero_rule_mark,
  ct_established_related, get_address_suffix, new_rule, nfproto_exprs, plain_element, new_set,
}
use multi_networkpolicy_nfta.Rules.{update_rule}
use multi_networkpolicy_nfta.Sets.{update_set}
use multi_networkpolicy_nfta.Chains.{common}
use multi_networkpolicy_nfta.Cluster.{CommonRuleConfig}
use multi_networkpolicy_nfta.Prefixes.{get_prefixes_as_set_interval}
use multi_networkpolicy_nfta.Peers.{family_info, address_exprs}
use multi_networkpolicy_nfta.Base.{
  if◌then◌else◌, is_empty, Bytes, codes, ◌>>=◌, ◌>>◌, lift, done, when, Bool, true, false, not,
  List, [], ◌∷◌, ◌++◌, map,
}

module _ ⦃lib : Libraries⦄ where
  allow_icmp : Chain → Bool → Render (Unit {0})
  allow_icmp chain icmpv6 = do
    let number = if icmpv6 then ipproto_icmpv6 else ipproto_icmp
    let proto = if icmpv6 then proto_ipv6 else proto_ipv4
    n ← gets (λ s. s.filter)
    update_rule
        (new_rule n chain (codes "allow_icmp_" ++ proto) (
          meta key_l4proto false 1
          ∷ cmp cmp_eq 1 (number ∷ [])
          ∷ counter 0 0
          ∷ verdict accept []
          ∷ []))
        add_rule false
    done

  -- router solicitation and advertisement, neighbor solicitation and advertisement
  abbrev ndp_elements : List SetElement
  ndp_elements = map (λ t. plain_element (t ∷ [])) (133 ∷ 134 ∷ 135 ∷ 136 ∷ [])

  allow_neighbor_discovery : Chain → Render (Unit {0})
  allow_neighbor_discovery chain = do
    n ← gets (λ s. s.filter)
    set ← update_set (new_set n (codes "ndp_set") icmp6_key true false false) ndp_elements
    update_rule
        (new_rule n chain (codes "allow-ipv6-ndp-discovery") (
          nfproto_exprs nfproto_ipv6
          ++ (meta key_l4proto false 1
              ∷ cmp cmp_eq 1 (ipproto_icmpv6 ∷ [])
              ∷ payload transport_header 1 0 1
              ∷ lookup set.name set.id 1
              ∷ counter 0 0
              ∷ verdict accept []
              ∷ [])))
        insert_rule false
    done

  -- one of the two blocks: the set and the rule of one family, where it has prefixes
  allow_prefixes : Chain → Bytes → Bool → List SetElement → Render (Unit {0})
  allow_prefixes chain prefix is_v6 elements = when (not (is_empty elements)) (do
    let f = family_info is_v6
    n ← gets (λ s. s.filter)
    set ←
        update_set
          (new_set n
            (prefix ++ (codes "_" ++ (f.protocol ++ (codes "_" ++ get_address_suffix chain.name))))
            f.key_type false false true)
          elements
    update_rule
        (new_rule n chain (codes "common rule:" ++ set.name)
          (address_exprs chain.name f set ++ (counter 0 0 ∷ verdict accept [] ∷ [])))
        add_rule false
    done)

  apply_common_prefix_rules : Chain → List Bytes → Bytes → Render (Unit {0})
  unfolding allow_prefixes
  apply_common_prefix_rules chain prefixes prefix = do
    (v4, v6) ← lift (get_prefixes_as_set_interval prefixes)
    allow_prefixes chain prefix false v4
    allow_prefixes chain prefix true v6

  allow_conntracked : Chain → Render (Unit {0})
  allow_conntracked chain = do
    n ← gets (λ s. s.filter)
    update_rule
        (new_rule n chain (codes "allow-conntracked") (
          ct_state 1 false
          ∷ bitwise 1 1 4 (lib.native_uint32 ct_established_related)
              (lib.native_uint32 zero_rule_mark)
          ∷ cmp cmp_neq 1 (0 ∷ 0 ∷ 0 ∷ 0 ∷ [])
          ∷ counter 0 0
          ∷ verdict accept []
          ∷ []))
        add_rule false
    done

  unfoldable pub apply_common_chain_rules : CommonRuleConfig → Render (Unit {0})
  unfolding allow_icmp allow_neighbor_discovery apply_common_prefix_rules allow_conntracked
  apply_common_chain_rules cfg = do
    ingress ← gets (λ s. s.common_ingress_chain)
    egress ← gets (λ s. s.common_egress_chain)
    (if cfg.accept_icmpv6
        then (do allow_icmp ingress true; allow_icmp egress true)
        else (do allow_neighbor_discovery ingress; allow_neighbor_discovery egress))
    when cfg.accept_icmp (do allow_icmp ingress false; allow_icmp egress false)
    when (not (is_empty cfg.allow_src_prefix))
        (apply_common_prefix_rules ingress cfg.allow_src_prefix common)
    when (not (is_empty cfg.allow_dst_prefix))
        (apply_common_prefix_rules egress cfg.allow_dst_prefix common)
    allow_conntracked ingress
    allow_conntracked egress
