-- ===== src/Events/Watches.antt =====
-- What the controller watches: SetupWithManager of pkg/controller/reconciler.go. The queue of
-- controller-runtime takes the requests for the old and for the new object of an update.
use multi_networkpolicy_nfta.Events.{
  Event, pod_predicate, policy_predicate, node_predicate, pod_object, policy_object,
  namespace_object, net_def_object, map_pod_to_node, map_policy_to_node, map_namespace_to_node,
  map_net_def_to_node,
}
use multi_networkpolicy_nfta.Cluster.{Labels, Pod}
use multi_networkpolicy_nfta.Base.{if◌then◌else◌, Bytes, ℕ, Option, List, [], ◌∷◌, ◌++◌}

pub data Change : Type 0 where
  node_change : Event → Bytes → Change
  pod_change : Event → Pod → Pod → Change
  policy_change : Event → ℕ × Option Labels → ℕ × Option Labels → Change
  net_def_change namespace_change : Change

-- the names of the nodes that a change in the cluster asks to reconcile
unfoldable pub requests_of : Bytes → Change → List Bytes
unfolding node_predicate pod_predicate policy_predicate map_pod_to_node map_policy_to_node
    map_net_def_to_node map_namespace_to_node
requests_of node_name (node_change event name) =
    if node_predicate node_name event name then name ∷ [] else []
requests_of node_name (pod_change event old_pod new_pod) =
    if pod_predicate event old_pod new_pod
    then map_pod_to_node (pod_object old_pod) ++ map_pod_to_node (pod_object new_pod)
    else []
requests_of node_name (policy_change event old new) =
    if policy_predicate event old new then map_policy_to_node node_name policy_object else []
requests_of node_name net_def_change = map_net_def_to_node node_name net_def_object
requests_of node_name namespace_change = map_namespace_to_node node_name namespace_object
