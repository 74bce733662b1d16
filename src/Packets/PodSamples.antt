-- ===== src/Packets/PodSamples.antt =====
-- A whole policy with two rules, and a packet of TCP to port 85.
use multi_networkpolicy_nfta.Packets.Marks.{both_bits}
use multi_networkpolicy_nfta.Packets.Chain.{rules_after, falls, run_chain}
use multi_networkpolicy_nfta.Packets.PortChain.{SetHolds}
use multi_networkpolicy_nfta.Nft.{Chain, insert_rule, NftState, Render}
use multi_networkpolicy_nfta.Ports.{
  validate_port_spec, get_inet_set, apply_proto_ports_rules, collect_ports, apply_protocol,
  apply_policy_ports_rules,
}
use multi_networkpolicy_nfta.Fields.{new_rule, jump_exprs}
use multi_networkpolicy_nfta.Rules.{update_rule}
use multi_networkpolicy_nfta.Sets.{update_set}
use multi_networkpolicy_nfta.Names.{truncate_nft_name, nft_name_with_suffix}
use multi_networkpolicy_nfta.Cluster.{Policy, on_policy_network}
use multi_networkpolicy_nfta.Packets.PortMatch.{Matches}
use multi_networkpolicy_nfta.Packets.PortCall.{new_commands}
use multi_networkpolicy_nfta.Chains.{short_chain_name, add_chain}
use multi_networkpolicy_nfta.Marks.{apply_pod_interface_rules, apply_mark_reset, apply_mark_check}
use multi_networkpolicy_nfta.PolicyRules.{
  policy_chain_name_of, apply_policy_peers_rules, apply_rule, apply_interfaces, apply_pod_rules,
}
use multi_networkpolicy_nfta.Packets.ListSends.{RuleParts, rules_of, Ready}
use multi_networkpolicy_nfta.Packets.ListChains.{names_of, NotAmong, AllDiffer}
use multi_networkpolicy_nfta.Packets.PodSends.{entry_rules, policy_chain_for}
use multi_networkpolicy_nfta.Packets.PodVerdict.{apply_pod_rules-admits}
use multi_networkpolicy_nfta.Packets.Samples.{
  web_set, tcp_packet, simple_step, simple_step-Evaluates, fresh-EmptyKernel,
  two_bytes-PutsBigEndian, web_ports, web_port_sets, web_set-holds,
}
use multi_networkpolicy_nfta.Nft.Fake.{fresh, filter_table, plain, start}
use multi_networkpolicy_nfta.Cluster.Fake.{quiet_cluster, web_info, deny_policy}
use multi_networkpolicy_nfta.Keys.{hash_rule}
use multi_networkpolicy_nfta.Base.{
  any, All, Any, Bytes, codes, eq_bytes, eq_bytes_iff, decimal, ok, ℕ, ◌≡◌, refl, ◌↔◌, inl, Bool,
  true, false, not, ◌&&◌, some, List, [], ◌∷◌, ◌++◌, arith,
}

abbrev web_parts : Bytes → RuleParts
web_parts index = record {
  ports = web_ports;
  sets = web_port_sets;
  port_chain = plain (codes "multi-ingress-a-b-ports-" ++ index);
  peers_chain = plain (codes "multi-ingress-a-b-peers-" ++ index);
}

abbrev pub two_rules : List RuleParts
two_rules = web_parts (codes "0") ∷ web_parts (codes "1") ∷ []

abbrev pub web_policy : Policy
web_policy = record deny_policy {
  namespace = codes "a";
  name = codes "b";
  ingress = some (rules_of two_rules);
}

abbrev pub entry_chain : Chain
entry_chain = plain (codes "multi-ingress")

abbrev pub web_policy_chain : Chain
web_policy_chain = plain (codes "multi-ingress-a-b")

abbrev pub web_networks : List Bytes
web_networks = codes "team/net1" ∷ []

-- a render that has put the jump to the common chain on the entry chain
abbrev pub begun : NftState
begun = record start {
  sent =
      insert_rule (
        new_rule ⦃lib = fresh⦄ filter_table entry_chain (codes "common-ingress-chain")
          (jump_exprs (codes "multi-ingress-common")))
      ∷ [];
}

abbrev pod_call : Render Bool
pod_call = apply_pod_rules ⦃lib = fresh⦄ quiet_cluster entry_chain web_info web_policy web_networks

pub web_policy-named :
    short_chain_name ⦃lib = fresh⦄ (policy_chain_for entry_chain.name web_policy begun.filter)
    ≡ ok web_policy_chain
unfolding short_chain_name policy_chain_name_of truncate_nft_name
web_policy-named = refl

pub web_policy-Ready :
    Ready ⦃lib = fresh⦄
      (policy_chain_name_of entry_chain.name web_policy)
      web_policy_chain
      0
      two_rules
unfolding short_chain_name policy_chain_name_of nft_name_with_suffix truncate_nft_name decimal
    collect_ports validate_port_spec
web_policy-Ready = (refl, refl, refl, (refl, refl, refl, tt))

names_unlike : (a : Bytes) (names : List Bytes) → any (eq_bytes a) names ≡ false → NotAmong a names
names_unlike a [] h = tt
names_unlike a (b ∷ names) h =
    (λ e. ground (arith, h, (eq_bytes_iff a b).1 e), names_unlike a names (ground (arith, h)))

abbrev pub all_unlike : List Bytes → Bool
all_unlike [] = true
all_unlike (a ∷ names) = not (any (eq_bytes a) names) && all_unlike names

pub all_unlike-AllDiffer : (names : List Bytes) → all_unlike names ≡ true → AllDiffer names
all_unlike-AllDiffer [] h = tt
all_unlike-AllDiffer (a ∷ names) h =
    (names_unlike a names (ground (arith, h)), all_unlike-AllDiffer names (ground (arith, h)))

pub web_policy-AllDiffer : AllDiffer (entry_chain.name ∷ web_policy_chain.name ∷ names_of two_rules)
web_policy-AllDiffer =
    all_unlike-AllDiffer (entry_chain.name ∷ web_policy_chain.name ∷ names_of two_rules) refl

pod_holds : All (SetHolds fresh web_set) (new_commands pod_call begun)
unfolding apply_pod_rules apply_interfaces apply_pod_interface_rules on_policy_network
    policy_chain_name_of apply_rule apply_policy_peers_rules apply_mark_reset apply_mark_check
    apply_policy_ports_rules add_chain update_rule update_set collect_ports validate_port_spec
    apply_protocol get_inet_set apply_proto_ports_rules nft_name_with_suffix truncate_nft_name
    decimal hash_rule
pod_holds = (
  tt,
  (
    tt,
    (
      tt,
      (
        tt,
        (
          tt,
          (
            web_set-holds,
            (
              tt,
              (
                tt,
                (
                  tt,
                  (tt, (tt, (tt, (tt, (tt, (web_set-holds, (tt, (tt, (tt, (tt, (tt, tt))))))))))),
                ),
              ),
            ),
          ),
        ),
      ),
    ),
  ),
)

apply_pod_rules-admits_example :
    let full = (pod_call begun).1.sent in
    ((b : Bool) × ((pod_call begun).0 ≡ ok b))
    × (rules_after entry_chain.name [] full
        ≡ rules_after entry_chain.name [] begun.sent
          ++ entry_rules ⦃lib = fresh⦄ entry_chain.name web_policy_chain.name web_networks
              web_info.interfaces)
    × (m' : ℕ) × ((both_bits m' ≡ true) ↔ Any (λ t. Matches t.ports tcp_packet 85) two_rules)
    × (run_chain (simple_step 85) full 15 web_policy_chain.name 7 ≡ falls m')
apply_pod_rules-admits_example =
    apply_pod_rules-admits fresh (simple_step 85) web_set tcp_packet 85 (simple_step-Evaluates 85)
      fresh-EmptyKernel two_bytes-PutsBigEndian quiet_cluster entry_chain web_info web_policy
      web_networks two_rules begun web_policy_chain 7 13 (inl refl) refl web_policy-named
      web_policy-Ready web_policy-AllDiffer (refl, (refl, (refl, (refl, (refl, tt))))) pod_holds
      (omega arith) (omega arith) (λ h. cc)
