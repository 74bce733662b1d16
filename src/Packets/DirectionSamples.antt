-- ===== src/Packets/DirectionSamples.antt =====
-- The policies of one direction, and a packet of TCP to port 85.
use multi_networkpolicy_nfta.Packets.Marks.{both_bits}
use multi_networkpolicy_nfta.Packets.Chain.{rules_after, falls, stops, run_chain}
use multi_networkpolicy_nfta.Packets.PortChain.{SetHolds}
use multi_networkpolicy_nfta.Nft.{drop, Render}
use multi_networkpolicy_nfta.Ports.{
  validate_port_spec, get_inet_set, apply_proto_ports_rules, collect_ports, apply_protocol,
  apply_policy_ports_rules,
}
use multi_networkpolicy_nfta.Fields.{ifname}
use multi_networkpolicy_nfta.Rules.{update_rule}
use multi_networkpolicy_nfta.Sets.{update_set}
use multi_networkpolicy_nfta.Names.{truncate_nft_name, nft_name_with_suffix}
use multi_networkpolicy_nfta.Cluster.{on_policy_network}
use multi_networkpolicy_nfta.Packets.PortCall.{new_commands}
use multi_networkpolicy_nfta.Chains.{add_chain}
use multi_networkpolicy_nfta.Marks.{
  apply_pod_interface_rules, apply_general_mark_check, apply_mark_reset, apply_mark_check,
  apply_drop_remaining,
}
use multi_networkpolicy_nfta.PolicyRules.{
  policy_chain_name_of, apply_policy_peers_rules, apply_rule, apply_interfaces, apply_pod_rules,
}
use multi_networkpolicy_nfta.Packets.DirectionSends.{PolicyParts, policies_of}
use multi_networkpolicy_nfta.Render.{apply_policies, apply_direction}
use multi_networkpolicy_nfta.Packets.Entry.{LoadsInterface}
use multi_networkpolicy_nfta.Packets.DirectionAdmission.{Admitted}
use multi_networkpolicy_nfta.Packets.DirectionVerdict.{LeavesTo, apply_direction-decides}
use multi_networkpolicy_nfta.Packets.Samples.{
  web_set, tcp_packet, simple_step, simple_step-Evaluates, fresh-EmptyKernel,
  two_bytes-PutsBigEndian, web_set-holds,
}
use multi_networkpolicy_nfta.Packets.PodSamples.{
  two_rules, web_policy, entry_chain, web_policy_chain, web_networks, begun, web_policy-named,
  web_policy-Ready, web_policy-AllDiffer,
}
use multi_networkpolicy_nfta.Nft.Fake.{fresh}
use multi_networkpolicy_nfta.Cluster.Fake.{quiet_cluster, web_info}
use multi_networkpolicy_nfta.Keys.{hash_rule}
use multi_networkpolicy_nfta.Base.{
  All, Bytes, codes, decimal, ok, ℕ, ◌≡◌, refl, ◌⊎◌, inl, true, [], ◌∷◌, arith,
}

abbrev web_parts : PolicyParts
web_parts = record {
  policy = record { policy = web_policy; policy_networks = web_networks };
  rules = two_rules;
  chain = web_policy_chain;
}

abbrev direction_call : Render (Unit {0})
direction_call =
    apply_direction ⦃lib = fresh⦄ quiet_cluster entry_chain web_info (policies_of (web_parts ∷ []))

abbrev net1 : Bytes
net1 = ifname (codes "net1")

simple_step-LoadsInterface : LoadsInterface (simple_step 85) entry_chain.name net1
simple_step-LoadsInterface = record { loads = λ vm. refl }

direction_holds : All (SetHolds fresh web_set) (new_commands direction_call begun)
unfolding apply_direction apply_policies apply_drop_remaining apply_general_mark_check
    apply_pod_rules apply_interfaces apply_pod_interface_rules on_policy_network
    policy_chain_name_of apply_rule apply_policy_peers_rules apply_mark_reset apply_mark_check
    apply_policy_ports_rules add_chain update_rule update_set collect_ports validate_port_spec
    apply_protocol get_inet_set apply_proto_ports_rules nft_name_with_suffix truncate_nft_name
    decimal hash_rule
direction_holds = (
  tt,
  (
    tt,
    (
      tt,
      (
        tt,
        (
          tt,
          (
            web_set-holds,
            (
              tt,
              (
                tt,
                (
                  tt,
                  (
                    tt,
                    (
                      tt,
                      (
                        tt,
                        (tt, (tt, (web_set-holds, (tt, (tt, (tt, (tt, (tt, (tt, (tt, tt)))))))))),
                      ),
                    ),
                  ),
                ),
              ),
            ),
          ),
        ),
      ),
    ),
  ),
)

-- the common chain is empty, so its jump comes back
direction_leaves :
    LeavesTo fresh
      (simple_step 85)
      web_set
      tcp_packet
      85
      (simple_step-Evaluates 85)
      (direction_call begun).1.sent
      13
      (rules_after entry_chain.name [] begun.sent)
      7
      7
unfolding apply_direction apply_policies apply_drop_remaining apply_general_mark_check
    apply_pod_rules apply_interfaces apply_pod_interface_rules on_policy_network
    policy_chain_name_of apply_rule apply_policy_peers_rules apply_mark_reset apply_mark_check
    apply_policy_ports_rules add_chain update_rule update_set collect_ports validate_port_spec
    apply_protocol get_inet_set apply_proto_ports_rules nft_name_with_suffix truncate_nft_name
    decimal hash_rule
direction_leaves = λ more. refl

apply_direction-decides_example :
    let verdict_on =
      run_chain (simple_step 85) (direction_call begun).1.sent 16 entry_chain.name 7 in
    let admitted =
      Admitted fresh
        (simple_step 85)
        web_set
        tcp_packet
        85
        (simple_step-Evaluates 85)
        two_bytes-PutsBigEndian
        entry_chain
        net1
        simple_step-LoadsInterface
        web_info
        (web_parts ∷ []) in
    ((direction_call begun).0 ≡ ok tt)
    × ((admitted × (m' : ℕ) × (both_bits m' ≡ true) × (verdict_on ≡ falls m'))
        ⊎ ((admitted → ⊥) × (verdict_on ≡ stops drop)))
apply_direction-decides_example =
    apply_direction-decides fresh (simple_step 85) web_set tcp_packet 85 (simple_step-Evaluates 85)
      fresh-EmptyKernel two_bytes-PutsBigEndian quiet_cluster entry_chain net1
      simple_step-LoadsInterface web_info web_parts [] begun 7 7 13 (inl refl)
      ((refl, web_policy-named, web_policy-Ready), tt) web_policy-AllDiffer
      (refl, (refl, (refl, (refl, (refl, tt))))) direction_holds (omega arith) (omega arith) refl
      direction_leaves
