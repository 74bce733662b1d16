-- ===== src/Reconcile/Node.antt =====
-- NodeReconciler of pkg/controller/reconciler.go as the renderer sees it: policyDeps,
-- applyRulesForPod, ListPods, GetNamespaceInfo and GetPluginType, and Reconcile on top of them.
use multi_networkpolicy_nfta.Reconcile.{Reconciled, reconcile, get_pod_info_of, resolve_plugin_type}
use multi_networkpolicy_nfta.Networks.{NamespacedName, PodLibraries}
use multi_networkpolicy_nfta.Cluster.{
  Labels, Selector, Policy, Pod, PodInfo, CommonRuleConfig, PolicyDeps,
}
use multi_networkpolicy_nfta.Applier.{Namespaces, apply_rules_for_pod}
use multi_networkpolicy_nfta.Base.{Bytes, Err, Result, ok, err, Option, none, some, List, []}

-- client.Client: the lists and reads of the cluster, each with the answer of the API server. A
-- network attachment is seen by the two readings of its configuration.
pub record Client : Type 0 where
  pub list_policies : Result (List Policy)
  pub list_node_pods : Bytes → Result (List Pod)
  pub list_matching : Selector → Result (List Pod)
  pub get_namespace : Bytes → Result (Bytes × Labels)
  pub get_cni_config : NamespacedName → Result (Result (List Bytes) × Result Bytes)

-- the function that puts the rules of a pod in place
abbrev pub Applies : Type 0
Applies = PolicyDeps → CommonRuleConfig → List Policy → Pod → PodInfo → Bytes → Option Err

-- `cri` is the answer of criRuntimeClient.
pub record NodeReconciler : Type 0 where
  pub node_name : Bytes
  pub client : Client
  pub policy_deps : Option PolicyDeps
  pub host_prefix : Bytes
  pub network_plugins : List Bytes
  pub common_cfg : CommonRuleConfig
  pub cri : Option Err
  pub apply_rules_for_pod_func : Option Applies

list_pods_of : NodeReconciler → Selector → Result (List Pod)
list_pods_of r selector = r.client.list_matching selector

-- GetNamespaceInfo; of a namespace only the labels are read afterwards
get_namespace_info : NodeReconciler → Bytes → Result Labels
get_namespace_info r namespace = elim (r.client.get_namespace namespace) [
  | err e ↦ err e
  | ok (name, labels) ↦ ok labels
]

get_plugin_type_of : NodeReconciler → NamespacedName → Result Bytes
unfolding resolve_plugin_type
get_plugin_type_of r name = elim (r.client.get_cni_config name) [
  | err e ↦ err e
  | ok (list_reading, conf_reading) ↦ resolve_plugin_type list_reading conf_reading
]

-- The reconciler as PolicyDeps. `labels` gives the functions of apimachinery on selectors, and
-- `pods` those of the network-attachment library; the plugin types are the reconciler's own.
module _ (labels : PolicyDeps) (pods : PodLibraries) where
  abbrev own_pod_libraries : NodeReconciler → PodLibraries
  own_pod_libraries r = record pods { get_plugin_type = get_plugin_type_of r }

  abbrev own_deps : NodeReconciler → PolicyDeps
  own_deps r = record labels {
    list_pods = list_pods_of r;
    get_namespace_labels = get_namespace_info r;
    get_pod_info =
        λ pod. get_pod_info_of ⦃pl = own_pod_libraries r⦄ r.node_name r.network_plugins r.cri pod;
  }

  unfoldable pub policy_deps_of : NodeReconciler → PolicyDeps
  unfolding list_pods_of get_namespace_info get_plugin_type_of
  policy_deps_of r = elim r.policy_deps [ some deps ↦ deps | none ↦ own_deps r ]

-- applyRulesForPod: the function of the reconciler where it is set, or the given one
unfoldable pub apply_func_of : Applies → NodeReconciler → Applies
apply_func_of default r = elim r.apply_rules_for_pod_func [ some f ↦ f | none ↦ default ]

abbrev error_of : Result (Unit {0}) → Option Err
error_of (ok _) = none
error_of (err e) = some e

-- the platform's applyRulesForPod; each pod has its own namespace and connection
unfoldable pub apply_on_host : ⦃ns : Namespaces⦄ → Applies
apply_on_host deps cfg policy_map pod pod_info host_prefix =
    error_of
      (apply_rules_for_pod deps cfg policy_map pod pod_info host_prefix
        (record { calls = []; written = [] })).0

unfoldable pub reconcile_node :
    ⦃ns : Namespaces⦄ → PolicyDeps → PodLibraries → NodeReconciler → Bytes → Reconciled
unfolding policy_deps_of apply_func_of apply_on_host
reconcile_node labels pods r request_name =
    let deps = policy_deps_of labels pods r in
    reconcile r.node_name deps.get_pod_info
      (λ policy_map pod info.
        apply_func_of apply_on_host r deps r.common_cfg policy_map pod info r.host_prefix)
      r.client.list_policies (r.client.list_node_pods r.node_name) request_name
