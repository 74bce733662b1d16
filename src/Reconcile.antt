-- ===== src/Reconcile.antt =====
-- The reconcile loop and its requests: pkg/controller/reconciler.go.
pub mod Exact
pub mod Namespace
pub mod Node
pub mod PolicyMap
mod Samples
use multi_networkpolicy_nfta.Cluster.{Policy, Pod, PodInfo, is_multi_networkpolicy_target}
use multi_networkpolicy_nfta.Networks.{PodLibraries, new_pod_info_from_pod}
use multi_networkpolicy_nfta.Networks.Netns.{check_node_name_identical, get_pod_net_ns_path}
use multi_networkpolicy_nfta.Base.{
  if◌then◌else◌, is_empty, Bytes, eq_bytes, Err, no_cri, empty_netns, empty_plugin_type, joined,
  join_errors, Result, ok, err, Exec, ℕ, Bool, true, false, not, ◌&&◌, ◌||◌, Option, none, some,
  List, [], ◌∷◌, ◌++◌,
}

-- ctrl.Result
pub record Outcome : Type 0 where
  pub requeue_after : Option ℕ

abbrev no_requeue : Outcome
no_requeue = record { requeue_after = none }

-- What a call of Reconcile did: the pods whose rules were applied, in order, and its result.
pub record Reconciled : Type 0 where
  pub applied : List Pod
  pub result : Result Outcome

-- `retryNeeded`, `retryErrs` and the pods that were handed to applyRulesForPod
pub record Progress : Type 0 where
  pub retry_needed : Bool
  pub retry_errs : List Err
  pub applied : List Pod

-- the policy map: a later policy of the same name replaces an earlier one
replace_policy : Policy → List Policy → List Policy
replace_policy p [] = p ∷ []
replace_policy p (q ∷ qs) =
    if eq_bytes p.namespace q.namespace && eq_bytes p.name q.name
    then p ∷ qs
    else q ∷ replace_policy p qs

policy_map_from : List Policy → List Policy → List Policy
unfolding replace_policy
policy_map_from [] pm = pm
policy_map_from (p ∷ ps) pm = policy_map_from ps (replace_policy p pm)

pub build_policy_map : List Policy → List Policy
unfolding policy_map_from
build_policy_map policies = policy_map_from policies []

-- `get_pod_info` is deps.GetPodInfo, and `apply` is applyRulesForPod with the configuration and the
-- policy map put in.
module _ (get_pod_info : Pod → Result PodInfo) (apply : Pod → PodInfo → Option Err) where
  note_error : Err → Progress → Progress
  note_error e p = record p { retry_needed = true; retry_errs = p.retry_errs ++ (e ∷ []) }

  after_apply : Option Err → Progress → Progress
  unfolding note_error
  after_apply none p = p
  after_apply (some e) p = note_error e p

  -- one round of the loop over the pods
  reconcile_pod : Pod → Progress → Progress
  unfolding after_apply
  reconcile_pod pod p =
      if not (is_multi_networkpolicy_target pod) then p else elim (get_pod_info pod) [
        | err e ↦ note_error e p
        | ok info ↦
            if is_empty info.interfaces
            then p
            else after_apply (apply pod info) (record p { applied = p.applied ++ (pod ∷ []) })
      ]

  reconcile_pods : List Pod → Progress → Progress
  unfolding reconcile_pod
  reconcile_pods [] p = p
  reconcile_pods (pod ∷ pods) p = reconcile_pods pods (reconcile_pod pod p)

  finish : Progress → Reconciled
  finish p = elim (join_errors p.retry_errs) [
    | some e ↦ record { applied = p.applied; result = err e }
    | none ↦ record {
      applied = p.applied;
      result = ok (if p.retry_needed then record { requeue_after = some 2 } else no_requeue);
    }
  ]

  after_lists : Result (List Policy) → Result (List Pod) → Reconciled
  unfolding reconcile_pods finish
  after_lists (err e) pods = record { applied = []; result = err e }
  after_lists (ok policies) (err e) = record { applied = []; result = err e }
  after_lists (ok policies) (ok pods) =
      finish (reconcile_pods pods (record { retry_needed = false; retry_errs = []; applied = [] }))

-- Reconcile for a request. `list_pods` lists by the node's name; `apply` takes the policy map.
unfoldable pub reconcile :
    Bytes
    → (Pod → Result PodInfo)
    → (List Policy → Pod → PodInfo → Option Err)
    → Result (List Policy)
    → Result (List Pod)
    → Bytes
    → Reconciled
unfolding after_lists build_policy_map
reconcile node_name get_pod_info apply policies pods request_name =
    if not (eq_bytes request_name node_name)
    then record { applied = []; result = ok no_requeue }
    else elim policies [
      | err e ↦ record { applied = []; result = err e }
      | ok ps ↦ after_lists get_pod_info (apply (build_policy_map ps)) (ok ps) pods
    ]

-- GetPodInfo: the network namespace of a pod of this node with interfaces. `cri` is the answer of
-- criRuntimeClient.
module _ ⦃pl : PodLibraries⦄ where
  with_path : PodInfo → Result Bytes → Result PodInfo
  with_path info (err e) = err e
  with_path info (ok path) =
      if is_empty path then err empty_netns else ok (record info { net_ns_path = path })

  local_pod_info : Bytes → Option Err → Pod → PodInfo → Result PodInfo
  unfolding with_path
  local_pod_info node_name cri pod info =
      if is_empty info.interfaces || not (check_node_name_identical node_name pod.node_name)
      then ok info
      else elim cri [ some e ↦ err e | none ↦ with_path info (get_pod_net_ns_path pod) ]

  unfoldable pub get_pod_info_of : Bytes → List Bytes → Option Err → Pod → Result PodInfo
  unfolding local_pod_info
  get_pod_info_of node_name network_plugins cri pod =
      elim (new_pod_info_from_pod pod network_plugins) [
        | err e ↦ err e
        | ok info ↦ local_pod_info node_name cri pod info
      ]

-- criRuntimeClient and CloseCRI: `Option ℕ` is the cached client, numbered.
pub record CriState : Type 0 where
  pub endpoint : Bytes
  pub client : Option ℕ

unfoldable pub cri_runtime_client : (Bytes → Result ℕ) → Exec CriState ℕ
cri_runtime_client connect s = elim s.client [
  | some c ↦ (ok c, s)
  | none ↦ if is_empty s.endpoint then (err no_cri, s) else elim (connect s.endpoint) [
    | err e ↦ (err e, s)
    | ok c ↦ (ok c, record s { client = some c })
  ]
]

-- CloseCRI: its answer, the state as it is left, and the clients on which Close was called.
unfoldable pub close_cri : (ℕ → Option Err) → CriState → Option Err × CriState × List ℕ
close_cri close s = elim s.client [
  | none ↦ (none, s, [])
  | some c ↦ (close c, record s { client = none }, c ∷ [])
]

-- resolvePluginType, from the two readings of the configuration's bytes: the types of the plugins
-- of a list, and the type of a single configuration.
resolve_plugin_type : Result (List Bytes) → Result Bytes → Result Bytes
resolve_plugin_type (ok (kind ∷ _)) conf = ok kind
resolve_plugin_type (ok []) (ok kind) = if is_empty kind then err empty_plugin_type else ok kind
resolve_plugin_type (ok []) (err e) = err e
resolve_plugin_type (err l) (ok kind) = if is_empty kind then err l else ok kind
resolve_plugin_type (err l) (err e) = err (joined l e)
