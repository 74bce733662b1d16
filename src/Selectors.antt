-- ===== src/Selectors.antt =====
-- Peers named by label selectors: applyPolicyPeersRulesSelector of pkg/server/netfilterrules.go.
pub mod Growth
use multi_networkpolicy_nfta.Nft.{Chain, Libraries, Render}
use multi_networkpolicy_nfta.Peers.{add_ip_rules}
use multi_networkpolicy_nfta.Cluster.{
  LabelSelector, Selector, Peer, Pod, InterfaceInfo, PodInfo, PolicyDeps, on_policy_network,
}
use multi_networkpolicy_nfta.Base.{
  if◌then◌else◌, Bytes, mem_bytes, Result, ok, err, ◌>>=◌, lift, ℕ, false, not, Option, none, some,
  List, [], ◌∷◌, ◌++◌,
}

-- `podIntfsIPsMap`, its keys in the order in which they came, and `podIntfIPs`
pub record Gathered : Type 0 where
  pub seen : List Bytes
  pub ips : List Bytes

-- `podIntfsIPsMap[ip] = nil` for each address
insert_keys : List Bytes → List Bytes → List Bytes
insert_keys seen [] = seen
insert_keys seen (ip ∷ rest) =
    insert_keys (if mem_bytes ip seen then seen else seen ++ (ip ∷ [])) rest

module _ (deps : PolicyDeps) where
  -- the body of the two inner loops, for a pair of interfaces on a policy network
  gather_pair : InterfaceInfo → InterfaceInfo → Gathered → Gathered
  unfolding insert_keys
  gather_pair intf s_intf g =
      let seen = insert_keys (insert_keys g.seen intf.ips) s_intf.ips in
      record { seen = seen; ips = g.ips ++ deps.map_order seen }

  gather_peer_interfaces : List Bytes → InterfaceInfo → List InterfaceInfo → Gathered → Gathered
  unfolding gather_pair
  gather_peer_interfaces networks intf [] g = g
  gather_peer_interfaces networks intf (s ∷ rest) g =
      gather_peer_interfaces networks intf rest
        (if on_policy_network s networks then gather_pair intf s g else g)

  gather_interfaces : List Bytes → List InterfaceInfo → List InterfaceInfo → Gathered → Gathered
  unfolding gather_peer_interfaces
  gather_interfaces networks [] s_intfs g = g
  gather_interfaces networks (intf ∷ rest) s_intfs g = gather_interfaces networks rest s_intfs (
      if on_policy_network intf networks then gather_peer_interfaces networks intf s_intfs g else g)

  -- One selected pod: it is passed over where its namespace or its interfaces cannot be read, or
  -- its namespace is not selected.
  gather_pod : Option Selector → List Bytes → PodInfo → Pod → Gathered → Gathered
  unfolding gather_interfaces
  gather_pod ns_selector networks pod_info s_pod g =
      elim (deps.get_namespace_labels s_pod.namespace) [
        | err e ↦ g
        | ok labels ↦
            if (elim ns_selector [
              | none ↦ false
              | some sel ↦ not (deps.selector_matches sel labels)
            ])
            then g
            else elim (deps.get_pod_info s_pod) [
              | err e ↦ g
              | ok info ↦ gather_interfaces networks pod_info.interfaces info.interfaces g
            ]
      ]

  gather_pods : Option Selector → List Bytes → PodInfo → List Pod → Gathered → Gathered
  unfolding gather_pod
  gather_pods ns_selector networks pod_info [] g = g
  gather_pods ns_selector networks pod_info (p ∷ ps) g =
      gather_pods ns_selector networks pod_info ps (gather_pod ns_selector networks pod_info p g)

  abbrev pod_selector_of : Option LabelSelector → Result Selector
  pod_selector_of none = ok deps.everything
  pod_selector_of (some sel) = deps.as_selector sel

  abbrev namespace_selector_of : Option LabelSelector → Result (Option Selector)
  namespace_selector_of none = ok none
  namespace_selector_of (some sel) = elim (deps.as_selector sel) [
    | ok s ↦ ok (some s)
    | err e ↦ err e
  ]

module _ ⦃lib : Libraries⦄ where
  unfoldable pub apply_policy_peers_rules_selector :
      PolicyDeps → Bytes → Chain → Bytes → Peer → PodInfo → List Bytes → ℕ → Render (Unit {0})
  unfolding gather_pods
  apply_policy_peers_rules_selector deps chain_name chain policy_name peer pod_info policy_networks
        peer_index =
      do
        pod_selector ← lift (pod_selector_of deps peer.pod_selector)
        pods ← lift (deps.list_pods pod_selector)
        ns_selector ← lift (namespace_selector_of deps peer.namespace_selector)
        let found =
            gather_pods deps ns_selector policy_networks pod_info pods
              (record { seen = []; ips = [] })
        add_ip_rules deps chain_name found.ips chain policy_name peer peer_index
