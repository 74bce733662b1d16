-- ===== src/PolicyRules.antt =====
-- The chains of a policy: applyPolicyPeersRules and applyPodRules of pkg/server/netfilterrules.go.
pub mod Growth
pub mod ChainName
pub mod OwnSide
mod Samples
use multi_networkpolicy_nfta.Nft.{Chain, counter, add_rule, Libraries, Render, gets}
use multi_networkpolicy_nfta.Fields.{
  peer_rule_mark, complement32, policy_namespaced_name, policy_rule_namespaced_name, concat,
  new_rule, jump_exprs, set_mark_exprs,
}
use multi_networkpolicy_nfta.Names.{nft_name_max_len, truncate_nft_name, nft_name_with_suffix}
use multi_networkpolicy_nfta.Rules.{update_rule}
use multi_networkpolicy_nfta.Chains.{is_ingress_chain, add_chain}
use multi_networkpolicy_nfta.Cluster.{
  Peer, PolicyRule, Policy, InterfaceInfo, PodInfo, PolicyDeps, on_policy_network,
}
use multi_networkpolicy_nfta.Marks.{apply_pod_interface_rules, apply_mark_reset, apply_mark_check}
use multi_networkpolicy_nfta.Ports.{apply_policy_ports_rules}
use multi_networkpolicy_nfta.Peers.{apply_policy_peers_rules_ip_block}
use multi_networkpolicy_nfta.Selectors.{apply_policy_peers_rules_selector}
use multi_networkpolicy_nfta.Base.{
  if◌then◌else◌, length, is_empty, Bytes, codes, decimal, unknown_peer, ◌>>=◌, ◌>>◌, pure, raise,
  done, when, for_index, ℕ, ◌-◌, Bool, false, ◌||◌, Option, none, some, List, [], ◌∷◌, ◌++◌,
}

-- `range` over a slice that may be nil
abbrev pub or_empty : Option (List PolicyRule) → List PolicyRule
or_empty none = []
or_empty (some rules) = rules

-- the name of a policy's chain on an entry chain
unfoldable pub policy_chain_name_of : Bytes → Policy → Bytes
policy_chain_name_of entry_name policy =
    entry_name
    ++ (codes "-"
        ++ truncate_nft_name (policy_rule_namespaced_name policy)
            (nft_name_max_len - length entry_name - 1))

module _ ⦃lib : Libraries⦄ (deps : PolicyDeps) where
  -- one round of the loop over the peers
  apply_peer : Bytes → Chain → Bytes → PodInfo → List Bytes → ℕ → Peer → Render (Unit {0})
  apply_peer peers_name peers_chain policy_name pod_info networks index peer = elim peer.ip_block [
    | some block ↦ apply_policy_peers_rules_ip_block peers_name peers_chain policy_name block index
    | none ↦ elim peer.pod_selector [
      | some _ ↦
          apply_policy_peers_rules_selector deps peers_name peers_chain policy_name peer pod_info
            networks index
      | none ↦ elim peer.namespace_selector [
        | some _ ↦
            apply_policy_peers_rules_selector deps peers_name peers_chain policy_name peer pod_info
              networks index
        | none ↦ raise unknown_peer
      ]
    ]
  ]

  unfoldable pub apply_policy_peers_rules :
      Bytes → Chain → Bytes → List Peer → PodInfo → List Bytes → ℕ → Render (Unit {0})
  unfolding apply_peer
  apply_policy_peers_rules chain_name chain policy_name peers pod_info networks peer_index = do
    let peers_name =
        nft_name_with_suffix chain_name (codes "-") (codes "peers-" ++ decimal peer_index)
    peers_chain ← add_chain (record { name = peers_name; table = chain.table; base = none })
    update_rule
        (new_rule chain.table chain
          (concat (
            codes "policy:"
            ∷ policy_name
            ∷ codes ", name:"
            ∷ chain_name
            ∷ codes ", jump:"
            ∷ peers_chain.name
            ∷ []))
          (jump_exprs peers_chain.name))
        add_rule false
    for_index 0 peers (apply_peer peers_name peers_chain policy_name pod_info networks)
    when (is_empty peers) (do
      update_rule
          (new_rule chain.table peers_chain
            (concat (
              codes "policy:"
              ∷ policy_name
              ∷ codes ", name:"
              ∷ peers_name
              ∷ codes ", no peers skipped accept all"
              ∷ []))
            (counter 0 0 ∷ set_mark_exprs (complement32 peer_rule_mark) peer_rule_mark))
          add_rule false
      done)

  -- one round of the loop over `Spec.Ingress` or `Spec.Egress`; the two differ in `reset_name`
  unfoldable pub apply_rule :
      Bytes → Chain → Bytes → Bytes → PodInfo → List Bytes → ℕ → PolicyRule → Render (Unit {0})
  unfolding apply_policy_peers_rules
  apply_rule chain_name chain reset_name policy_name pod_info networks index rule = do
    apply_mark_reset chain_name chain reset_name index
    apply_policy_ports_rules chain_name chain policy_name rule.ports index
    apply_policy_peers_rules chain_name chain policy_name rule.peers pod_info networks index
    apply_mark_check chain_name chain policy_name index

  -- the loop over the interfaces of the pod; the flag says that a rule was new
  unfoldable pub apply_interfaces :
      Chain → Chain → Policy → List Bytes → List InterfaceInfo → Bool → Render Bool
  apply_interfaces chain policy_chain policy networks [] new_rules = pure new_rules
  apply_interfaces chain policy_chain policy networks (intf ∷ rest) new_rules =
      if on_policy_network intf networks
      then (do
        new_one ← apply_pod_interface_rules chain policy_chain policy intf
        apply_interfaces chain policy_chain policy networks rest (new_one || new_rules))
      else apply_interfaces chain policy_chain policy networks rest new_rules

  unfoldable pub apply_pod_rules : Chain → PodInfo → Policy → List Bytes → Render Bool
  unfolding apply_rule apply_interfaces policy_chain_name_of
  apply_pod_rules chain pod_info policy networks = do
    let policy_chain_name = policy_chain_name_of chain.name policy
    n ← gets (λ s. s.filter)
    policy_chain ← add_chain (record { name = policy_chain_name; table = n; base = none })
    new_rules ← apply_interfaces chain policy_chain policy networks pod_info.interfaces false
    let name = policy_namespaced_name policy
    (if is_ingress_chain policy_chain_name
        then for_index 0 (or_empty policy.ingress)
            (apply_rule policy_chain_name policy_chain name name pod_info networks)
        else for_index 0 (or_empty policy.egress)
            (apply_rule policy_chain_name policy_chain policy.name name pod_info networks))
    pure new_rules
