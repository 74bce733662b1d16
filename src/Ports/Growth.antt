-- ===== src/Ports/Growth.antt =====
-- The keys of kept rules across the rules for ports.
use multi_networkpolicy_nfta.Nft.{Chain, NftSet, SetElement, add_rule, Libraries}
use multi_networkpolicy_nfta.Ports.{
  get_inet_set, apply_proto_ports_rules, PortSets, collect_ports, apply_protocol,
  apply_policy_ports_rules,
}
use multi_networkpolicy_nfta.Rules.Growth.{
  Grows, Grows-lift, Grows-bind, Grows-when, Grows-update_rule, Grows-rule,
}
use multi_networkpolicy_nfta.Sets.Growth.{update_set-Grows}
use multi_networkpolicy_nfta.Chains.Growth.{add_chain-Grows}
use multi_networkpolicy_nfta.Cluster.{PolicyPort}
use multi_networkpolicy_nfta.Fields.{protocol_tcp, protocol_udp, protocol_sctp, get_protocol_info}
use multi_networkpolicy_nfta.Rules.{update_rule}
use multi_networkpolicy_nfta.Sets.{update_set}
use multi_networkpolicy_nfta.Chains.{add_chain}
use multi_networkpolicy_nfta.Names.{nft_name_with_suffix}
use multi_networkpolicy_nfta.Base.{
  is_empty, Bytes, codes, decimal, lift, ℕ, false, not, ◌&&◌, ◌||◌, none, List, [], ◌++◌,
}

module _ ⦃lib : Libraries⦄ where
  apply_proto_ports_rules-Grows :
      (chain_name : Bytes) (chain : Chain) (policy_name : Bytes) (set : NftSet) (unix_proto : Bytes)
      → Grows (apply_proto_ports_rules chain_name chain policy_name set unix_proto)
  unfolding apply_proto_ports_rules
  apply_proto_ports_rules-Grows chain_name chain policy_name set unix_proto =
      Grows-rule _ add_rule false

  apply_protocol-Grows :
      (protocol : Bytes) (elements : List SetElement) (ports_name : Bytes)
      (chain port_chain : Chain) (policy_name : Bytes)
      → Grows (apply_protocol protocol elements ports_name chain port_chain policy_name)
  unfolding apply_protocol
  apply_protocol-Grows protocol elements ports_name chain port_chain policy_name =
      let info = get_protocol_info protocol in
      let set = get_inet_set chain ports_name info.0 in
      Grows-when (not (is_empty elements)) _ (
        Grows-bind (update_set set elements) _ (update_set-Grows set elements)
          (λ set'. apply_proto_ports_rules-Grows ports_name port_chain policy_name set' info.1))

  pub apply_policy_ports_rules-Grows :
      (chain_name : Bytes) (chain : Chain) (policy_name : Bytes) (ports : List PolicyPort)
      (index : ℕ)
      → Grows (apply_policy_ports_rules chain_name chain policy_name ports index)
  unfolding apply_policy_ports_rules
  apply_policy_ports_rules-Grows chain_name chain policy_name ports index =
      let name = nft_name_with_suffix chain_name (codes "-") (codes "ports-" ++ decimal index) in
      let wanted : Chain = record { name = name; table = chain.table; base = none } in
      let start : PortSets = record { tcp = []; udp = []; sctp = [] } in
      Grows-bind (add_chain wanted) _ (add_chain-Grows wanted) (λ pc.
        Grows-bind (update_rule _ add_rule false) _ (Grows-update_rule _ add_rule false) (λ _.
          Grows-bind (lift (collect_ports ports start)) _ (Grows-lift (collect_ports ports start))
            (λ sets.
              Grows-bind _ _ (apply_protocol-Grows protocol_tcp sets.tcp name chain pc policy_name)
                (λ _.
                  Grows-bind _ _
                    (apply_protocol-Grows protocol_udp sets.udp name chain pc policy_name)
                    (λ _.
                      Grows-bind _ _
                        (apply_protocol-Grows protocol_sctp sets.sctp name chain pc policy_name)
                        (λ _.
                          Grows-when
                            (is_empty ports
                              || (is_empty sets.tcp && is_empty sets.udp && is_empty sets.sctp))
                            _ (Grows-rule _ add_rule false)))))))
