-- ===== src/Networks.antt =====
-- The interfaces of a pod: podNeedsNetworkStatus, networkSelectionsFromStatus and NewPodInfoFromPod
-- of pkg/controllers/netns.go.
pub mod Netns
pub mod Containers
mod Samples
use multi_networkpolicy_nfta.Cluster.{
  Labels, Pod, NetworkStatus, InterfaceInfo, PodInfo, is_multi_networkpolicy_target,
}
use multi_networkpolicy_nfta.Options.{trim_space}
use multi_networkpolicy_nfta.Base.{
  ◌==◌, if◌then◌else◌, is_empty, any, Bytes, codes, eq_bytes, le_bytes, split_byte, Result, ok, err,
  sort_by, ℕ, Bool, true, false, not, ◌&&◌, Option, none, some, List, [], ◌∷◌, ◌++◌,
}

-- a network attachment, with the namespace that its selection names
pub record Selection : Type 0 where
  pub name : Bytes
  pub namespace : Bytes

pub record NamespacedName : Type 0 where
  pub namespace : Bytes
  pub name : Bytes

-- What json.Unmarshal makes of a text, for an `interface{}`: a number is a float64, by its bits.
mutual
  pub data Json : Type 0 where
    json_null : Json
    json_bool : Bool → Json
    json_number : ℕ → Json
    json_string : Bytes → Json
    json_array : Items → Json
    json_object : Members → Json

  pub data Items : Type 0 where
    no_items : Items
    item : Json → Items → Items

  pub data Members : Type 0 where
    no_members : Members
    member : Bytes → Json → Members → Members

-- What the network-attachment library, encoding/json and the CRI client answer. `parse_networks`
-- gives the selections of a pod, none where the annotation is absent or bad; the texts of
-- annotations are read by `parse_statuses`.
pub record PodLibraries : Type 0 where
  pub parse_networks : Pod → List Selection
  pub get_network_status : Pod → Result (List NetworkStatus)
  pub parse_statuses : Bytes → Option (List NetworkStatus)
  pub get_plugin_type : NamespacedName → Result Bytes
  -- ContainerStatus of a container, verbose: the entry `info` of the answer, empty where it is missing
  pub container_status : Bytes → Result Bytes
  pub unmarshal : Bytes → Result Json

has_secondary_network_status : List NetworkStatus → Bool
has_secondary_network_status statuses =
    any
      (λ s.
        not (is_empty s.interface) && not (eq_bytes s.interface (codes "eth0")) && not s.default)
      statuses

-- the namespace and the name on either side of the first slash
split_slash : Bytes → Bytes → Option (Bytes × Bytes)
split_slash before [] = none
split_slash before (c ∷ s) =
    if c == b'/' then some (before, s) else split_slash (before ++ (c ∷ [])) s

selection_parts : Bytes → Bytes → Bytes × Bytes
unfolding split_slash
selection_parts pod_namespace name = elim (split_slash [] name) [
  | none ↦ (pod_namespace, name)
  | some parts ↦ parts
]

selection_of : Bytes → Bytes × Bytes → List Selection → List Selection
selection_of name (namespace, n) rest =
    if is_empty n then rest else record { name = n; namespace = namespace } ∷ rest

network_selections_from_status : Pod → List NetworkStatus → List Selection
unfolding has_secondary_network_status selection_of selection_parts
network_selections_from_status pod [] = []
network_selections_from_status pod (s ∷ rest) =
    let later = network_selections_from_status pod rest in
    if not (has_secondary_network_status (s ∷ []))
    then later
    else selection_of s.name (selection_parts pod.namespace s.name) later

-- a value of a map of strings, empty where the key is absent
abbrev text_at : Bytes → Labels → Bytes
text_at key [] = []
text_at key ((k, v) ∷ rest) = if eq_bytes key k then v else text_at key rest

abbrev networks_annotation : Bytes
networks_annotation = codes "k8s.v1.cni.cncf.io/networks"

abbrev status_annotation : Bytes
status_annotation = codes "k8s.v1.cni.cncf.io/network-status"

module _ ⦃pl : PodLibraries⦄ where
  secondary_status_text : Bytes → Bool
  secondary_status_text text = if is_empty text then false else elim (pl.parse_statuses text) [
    | none ↦ false
    | some statuses ↦ has_secondary_network_status statuses
  ]

  needs_by_annotations : Option Labels → Bool
  unfolding secondary_status_text
  needs_by_annotations none = false
  needs_by_annotations (some annotations) =
      let networks = trim_space (text_at networks_annotation annotations) in
      if not (is_empty networks)
        && not (eq_bytes networks (codes "[]"))
        && not (eq_bytes networks (codes "null"))
      then true
      else secondary_status_text (trim_space (text_at status_annotation annotations))

  pod_needs_network_status : Pod → List Selection → Bool
  unfolding needs_by_annotations
  pod_needs_network_status pod networks =
      if not (is_empty networks) then true else needs_by_annotations pod.annotations

  network_status_for_pod : Pod → List Selection → Result (List NetworkStatus)
  network_status_for_pod pod networks =
      if not (pod_needs_network_status pod networks) then ok [] else pl.get_network_status pod

  -- `networkPluginsMap`
  abbrev plugin_at : NamespacedName → List (NamespacedName × Bytes) → Option Bytes
  plugin_at key [] = none
  plugin_at key ((k, v) ∷ rest) =
      if eq_bytes key.namespace k.namespace && eq_bytes key.name k.name
      then some v
      else plugin_at key rest

  abbrev network_key : Pod → Selection → NamespacedName
  network_key pod n = record {
    namespace = if not (is_empty n.namespace) then n.namespace else pod.namespace;
    name = n.name;
  }

  -- the loop over `networks`
  resolve_plugins :
      Pod → List Selection → List (NamespacedName × Bytes) → Result (List (NamespacedName × Bytes))
  resolve_plugins pod [] plugins = ok plugins
  resolve_plugins pod (n ∷ rest) plugins = elim (plugin_at (network_key pod n) plugins) [
    | some _ ↦ resolve_plugins pod rest plugins
    | none ↦ elim (pl.get_plugin_type (network_key pod n)) [
      | err e ↦ err e
      | ok kind ↦ resolve_plugins pod rest ((network_key pod n, kind) ∷ plugins)
    ]
  ]

  abbrev status_key : Bytes → Bytes → List Bytes → NamespacedName
  status_key pod_namespace whole (namespace ∷ name ∷ []) = record {
    namespace = trim_space namespace;
    name = name;
  }
  status_key pod_namespace whole _ = record { namespace = pod_namespace; name = whole }

  abbrev or_blank : Option Bytes → Bytes
  or_blank none = []
  or_blank (some t) = t

  -- an interface for each configured plugin that is the network's; an absent network reads as ""
  interfaces_of : NetworkStatus → Option Bytes → List Bytes → List InterfaceInfo
  interfaces_of s kind [] = []
  interfaces_of s kind (p ∷ ps) =
      let rest = interfaces_of s kind ps in
      let k = or_blank kind in
      if eq_bytes k p
      then record {
        netattach_name = s.name;
        interface_name = s.interface;
        interface_type = k;
        ips = s.ips;
      }
        ∷ rest
      else rest

  -- the loop over `statuses`
  match_statuses :
      Pod → List Bytes → List (NamespacedName × Bytes) → List NetworkStatus → List InterfaceInfo
  unfolding interfaces_of
  match_statuses pod network_plugins plugins [] = []
  match_statuses pod network_plugins plugins (s ∷ rest) =
      interfaces_of s (plugin_at (status_key pod.namespace s.name (split_byte b'/' s.name)) plugins)
        network_plugins
      ++ match_statuses pod network_plugins plugins rest

  abbrev statuses_or_none : Result (List NetworkStatus) → List NetworkStatus
  statuses_or_none (ok statuses) = statuses
  statuses_or_none (err _) = []

  -- selections read off the statuses, where the annotation gave none and the read succeeded
  abbrev effective_networks : Pod → List Selection → Result (List NetworkStatus) → List Selection
  effective_networks pod [] (ok statuses) = network_selections_from_status pod statuses
  effective_networks pod networks _ = networks

  abbrev pod_info_of : Pod → List NetworkStatus → Bytes → List InterfaceInfo → PodInfo
  pod_info_of pod statuses path netifs = record {
    name = pod.name;
    namespace = pod.namespace;
    net_ns_path = path;
    network_status = statuses;
    node_name = pod.node_name;
    interfaces = sort_by (λ a b. le_bytes a.interface_name b.interface_name) netifs;
  }

  abbrev target_pod_info :
      Pod
      → List Bytes
      → List NetworkStatus
      → Result (List (NamespacedName × Bytes))
      → Result PodInfo
  target_pod_info pod network_plugins statuses (err e) = err e
  target_pod_info pod network_plugins statuses (ok plugins) =
      ok (pod_info_of pod statuses [] (match_statuses pod network_plugins plugins statuses))

  -- NewPodInfoFromPod as the reconciler calls it, with no CRI client: the path stays empty.
  unfoldable pub new_pod_info_from_pod : Pod → List Bytes → Result PodInfo
  unfolding network_status_for_pod pod_needs_network_status resolve_plugins match_statuses
      has_secondary_network_status network_selections_from_status
  new_pod_info_from_pod pod network_plugins =
      if is_multi_networkpolicy_target pod
      then (let networks = pl.parse_networks pod in
          let answer = network_status_for_pod pod networks in
          target_pod_info pod network_plugins (statuses_or_none answer)
            (resolve_plugins pod (effective_networks pod networks answer) []))
      else ok (pod_info_of pod [] [] [])
