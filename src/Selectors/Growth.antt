-- ===== src/Selectors/Growth.antt =====
-- The keys of kept rules across the rules for selected pods.
use multi_networkpolicy_nfta.Nft.{Chain, Libraries}
use multi_networkpolicy_nfta.Selectors.{
  pod_selector_of, namespace_selector_of, apply_policy_peers_rules_selector,
}
use multi_networkpolicy_nfta.Rules.Growth.{Grows, Grows-lift, Grows-bind}
use multi_networkpolicy_nfta.Peers.Growth.{add_ip_rules-Grows}
use multi_networkpolicy_nfta.Cluster.{Peer, PodInfo, PolicyDeps}
use multi_networkpolicy_nfta.Base.{Bytes, lift, ℕ, List}

module _ ⦃lib : Libraries⦄ where
  pub apply_policy_peers_rules_selector-Grows :
      (deps : PolicyDeps) (chain_name : Bytes) (chain : Chain) (policy_name : Bytes) (peer : Peer)
      (pod_info : PodInfo) (networks : List Bytes) (index : ℕ)
      → Grows (
          apply_policy_peers_rules_selector deps chain_name chain policy_name peer pod_info networks
            index)
  unfolding apply_policy_peers_rules_selector
  apply_policy_peers_rules_selector-Grows deps chain_name chain policy_name peer pod_info networks
        index =
      let pods = pod_selector_of deps peer.pod_selector in
      let namespaces = namespace_selector_of deps peer.namespace_selector in
      Grows-bind (lift pods) _ (Grows-lift pods) (λ sel.
        Grows-bind (lift (deps.list_pods sel)) _ (Grows-lift (deps.list_pods sel)) (λ found.
          Grows-bind (lift namespaces) _ (Grows-lift namespaces)
            (λ ns. add_ip_rules-Grows deps chain_name _ chain policy_name peer index)))
