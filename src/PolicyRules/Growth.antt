-- ===== src/PolicyRules/Growth.antt =====
-- The keys of kept rules across the rules of a policy.
use multi_networkpolicy_nfta.Nft.{Chain, add_rule, Libraries, gets}
use multi_networkpolicy_nfta.PolicyRules.{
  or_empty, policy_chain_name_of, apply_peer, apply_policy_peers_rules, apply_rule,
  apply_interfaces, apply_pod_rules,
}
use multi_networkpolicy_nfta.Rules.Growth.{
  Grows, Grows-gets, Grows-pure, Grows-raise, Grows-bind, Grows-when, Grows-for_index,
  Grows-update_rule, Grows-rule,
}
use multi_networkpolicy_nfta.Chains.Growth.{add_chain-Grows}
use multi_networkpolicy_nfta.Marks.Growth.{
  apply_pod_interface_rules-Grows, apply_mark_reset-Grows, apply_mark_check-Grows,
}
use multi_networkpolicy_nfta.Ports.Growth.{apply_policy_ports_rules-Grows}
use multi_networkpolicy_nfta.Peers.Growth.{apply_policy_peers_rules_ip_block-Grows}
use multi_networkpolicy_nfta.Selectors.Growth.{apply_policy_peers_rules_selector-Grows}
use multi_networkpolicy_nfta.Cluster.{
  Peer, PolicyRule, Policy, InterfaceInfo, PodInfo, PolicyDeps, on_policy_network,
}
use multi_networkpolicy_nfta.Fields.{policy_namespaced_name}
use multi_networkpolicy_nfta.Rules.{update_rule}
use multi_networkpolicy_nfta.Chains.{is_ingress_chain, add_chain}
use multi_networkpolicy_nfta.Names.{nft_name_with_suffix}
use multi_networkpolicy_nfta.Base.{
  Option-cases, is_empty, Bytes, codes, decimal, unknown_peer, for_index, Keeps-if, ℕ, inl, inr,
  Bool, false, ◌||◌, none, List, [], ◌∷◌, ◌++◌,
}

module _ ⦃lib : Libraries⦄ (deps : PolicyDeps) where
  apply_peer-Grows :
      (name : Bytes) (chain : Chain) (policy_name : Bytes) (info : PodInfo) (networks : List Bytes)
      (index : ℕ) (peer : Peer)
      → Grows (apply_peer deps name chain policy_name info networks index peer)
  unfolding apply_peer
  apply_peer-Grows name chain policy_name info networks index peer =
      elim (Option-cases peer.ip_block) [
        | inr (block, e) ↦
            rw (e, apply_peer)
              (apply_policy_peers_rules_ip_block-Grows name chain policy_name block index)
        | inl e ↦
            rw (e, apply_peer)
              (elim (Option-cases peer.pod_selector) [
                | inr (sel, f) ↦ rw f (
                    apply_policy_peers_rules_selector-Grows deps name chain policy_name peer info
                      networks index)
                | inl f ↦ rw f (elim (Option-cases peer.namespace_selector) [
                  | inr (sel, g) ↦ rw g (
                      apply_policy_peers_rules_selector-Grows deps name chain policy_name peer info
                        networks index)
                  | inl g ↦ rw g (Grows-raise unknown_peer)
                ])
              ])
      ]

  apply_policy_peers_rules-Grows :
      (chain_name : Bytes) (chain : Chain) (policy_name : Bytes) (peers : List Peer)
      (info : PodInfo) (networks : List Bytes) (index : ℕ)
      → Grows (apply_policy_peers_rules deps chain_name chain policy_name peers info networks index)
  unfolding apply_policy_peers_rules
  apply_policy_peers_rules-Grows chain_name chain policy_name peers info networks index =
      let name = nft_name_with_suffix chain_name (codes "-") (codes "peers-" ++ decimal index) in
      let wanted : Chain = record { name = name; table = chain.table; base = none } in
      Grows-bind (add_chain wanted) _ (add_chain-Grows wanted) (λ pc.
        Grows-bind (update_rule _ add_rule false) _ (Grows-update_rule _ add_rule false) (λ _.
          Grows-bind (for_index 0 peers (apply_peer deps name pc policy_name info networks)) _
            (Grows-for_index 0 peers (apply_peer deps name pc policy_name info networks)
              (apply_peer-Grows name pc policy_name info networks))
            (λ _. Grows-when (is_empty peers) _ (Grows-rule _ add_rule false))))

  apply_rule-Grows :
      (chain_name : Bytes) (chain : Chain) (reset_name policy_name : Bytes) (info : PodInfo)
      (networks : List Bytes) (index : ℕ) (rule : PolicyRule)
      → Grows (apply_rule deps chain_name chain reset_name policy_name info networks index rule)
  unfolding apply_rule
  apply_rule-Grows chain_name chain reset_name policy_name info networks index rule =
      Grows-bind _ _ (apply_mark_reset-Grows chain_name chain reset_name index) (λ _.
        Grows-bind _ _
          (apply_policy_ports_rules-Grows chain_name chain policy_name rule.ports index)
          (λ _.
            Grows-bind _ _
              (apply_policy_peers_rules-Grows chain_name chain policy_name rule.peers info networks
                index)
              (λ _. apply_mark_check-Grows chain_name chain policy_name index)))

  apply_interfaces-Grows :
      (chain policy_chain : Chain) (policy : Policy) (networks : List Bytes)
      (intfs : List InterfaceInfo) (new_rules : Bool)
      → Grows (apply_interfaces deps chain policy_chain policy networks intfs new_rules)
  unfolding apply_interfaces
  apply_interfaces-Grows chain policy_chain policy networks [] new_rules = Grows-pure new_rules
  apply_interfaces-Grows chain policy_chain policy networks (intf ∷ rest) new_rules = λ key.
      Keeps-if (on_policy_network intf networks) _ _
        (λ _.
          Grows-bind _ _ (apply_pod_interface_rules-Grows chain policy_chain policy intf)
            (λ n. apply_interfaces-Grows chain policy_chain policy networks rest (n || new_rules))
            key)
        (λ _. apply_interfaces-Grows chain policy_chain policy networks rest new_rules key)

  pub apply_pod_rules-Grows :
      (chain : Chain) (info : PodInfo) (policy : Policy) (networks : List Bytes)
      → Grows (apply_pod_rules deps chain info policy networks)
  unfolding apply_pod_rules
  apply_pod_rules-Grows chain info policy networks =
      let chain_name = policy_chain_name_of chain.name policy in
      let name = policy_namespaced_name policy in
      Grows-bind (gets (λ s. s.filter)) _ (Grows-gets (λ s. s.filter)) (λ n.
        Grows-bind (add_chain _) _ (add_chain-Grows _) (λ pc.
          Grows-bind _ _ (apply_interfaces-Grows chain pc policy networks info.interfaces false)
            (λ new_rules.
              Grows-bind _ _
                (λ key.
                  Keeps-if (is_ingress_chain chain_name) _ _
                    (λ _.
                      Grows-for_index 0 (or_empty policy.ingress) _
                        (apply_rule-Grows chain_name pc name name info networks) key)
                    (λ _.
                      Grows-for_index 0 (or_empty policy.egress) _
                        (apply_rule-Grows chain_name pc policy.name name info networks) key))
                (λ _. Grows-pure new_rules))))
