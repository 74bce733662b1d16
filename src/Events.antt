-- ===== src/Events.antt =====
-- Which events ask for a reconcile, and of which node: pkg/controller/predicates.go, mappers.go and
-- indexes.go.
pub mod Changes
pub mod Watches
mod Samples
use multi_networkpolicy_nfta.Cluster.{Labels, ContainerStatus, Pod}
use multi_networkpolicy_nfta.Base.{
  ◌==◌, if◌then◌else◌, length, is_empty, any, Bytes, codes, eq_bytes, ℕ, Bool, true, false, not,
  Option, none, some, List, [], ◌∷◌,
}

pub data Event : Type 0 where
  create update delete generic : Event

-- `newVal, ok := newLabels[key]`
abbrev pub label_at : Bytes → Labels → Option Bytes
label_at key [] = none
label_at key ((k, v) ∷ rest) = if eq_bytes key k then some v else label_at key rest

abbrev is_value : Bytes → Option Bytes → Bool
is_value v none = false
is_value v (some w) = eq_bytes w v

-- the loop over the old labels
some_label_changed : Labels → Labels → Bool
some_label_changed [] new_labels = false
some_label_changed ((key, v) ∷ rest) new_labels =
    if not (is_value v (label_at key new_labels)) then true else some_label_changed rest new_labels

unfoldable pub labels_changed : Labels → Labels → Bool
unfolding some_label_changed
labels_changed old_labels new_labels =
    if not (length old_labels == length new_labels)
    then true
    else some_label_changed old_labels new_labels

-- `oldByName`, in which a later status of the same name stands in front
ids_by_name : List ContainerStatus → Labels → Labels
ids_by_name [] m = m
ids_by_name (s ∷ rest) m = ids_by_name rest ((s.name, s.container_id) ∷ m)

some_status_changed : List ContainerStatus → Labels → Bool
some_status_changed [] old_by_name = false
some_status_changed (s ∷ rest) old_by_name =
    if not (is_value s.container_id (label_at s.name old_by_name))
    then true
    else some_status_changed rest old_by_name

container_statuses_changed : List ContainerStatus → List ContainerStatus → Bool
unfolding ids_by_name some_status_changed
container_statuses_changed old_statuses new_statuses =
    if not (length old_statuses == length new_statuses)
    then true
    else some_status_changed new_statuses (ids_by_name old_statuses [])

-- the value of a key, empty where it is absent or the map is nil
abbrev value_at : Bytes → Option Labels → Bytes
value_at key none = []
value_at key (some m) = elim (label_at key m) [ none ↦ [] | some v ↦ v ]

abbrev network_annotation_keys : List Bytes
network_annotation_keys =
    codes "k8s.v1.cni.cncf.io/network-status" ∷ codes "k8s.v1.cni.cncf.io/networks" ∷ []

network_annotations_changed : Option Labels → Option Labels → Bool
network_annotations_changed old_annotations new_annotations =
    any (λ key. not (eq_bytes (value_at key old_annotations) (value_at key new_annotations)))
      network_annotation_keys

policy_network_annotation_changed : Option Labels → Option Labels → Bool
policy_network_annotation_changed old_annotations new_annotations = not (
    eq_bytes (value_at (codes "k8s.v1.cni.cncf.io/policy-for") old_annotations)
      (value_at (codes "k8s.v1.cni.cncf.io/policy-for") new_annotations))

-- PodPredicate on an update of a pod
pod_update_matters : Pod → Pod → Bool
pod_update_matters old_pod new_pod =
    if not (eq_bytes old_pod.phase new_pod.phase)
    then true
    else if not (eq_bytes old_pod.node_name new_pod.node_name)
    then true
    else if labels_changed old_pod.labels new_pod.labels
    then true
    else if container_statuses_changed old_pod.container_statuses new_pod.container_statuses
    then true
    else network_annotations_changed old_pod.annotations new_pod.annotations

pod_predicate : Event → Pod → Pod → Bool
pod_predicate create old_pod new_pod = true
pod_predicate delete old_pod new_pod = true
pod_predicate update old_pod new_pod = pod_update_matters old_pod new_pod
pod_predicate generic old_pod new_pod = false

-- PolicyPredicate; a policy is seen by its generation and its annotations
policy_predicate : Event → ℕ × Option Labels → ℕ × Option Labels → Bool
policy_predicate create old new = true
policy_predicate delete old new = true
policy_predicate update (old_gen, old_ann) (new_gen, new_ann) =
    if not (old_gen == new_gen) then true else policy_network_annotation_changed old_ann new_ann
policy_predicate generic old new = false

-- NodePredicate: on an update the name is that of the new object
node_predicate : Bytes → Event → Bytes → Bool
node_predicate node_name event name = eq_bytes name node_name

pub data Object : Type 0 where
  pod_object : Pod → Object
  policy_object namespace_object net_def_object other_object : Object

-- the names of the nodes to reconcile
map_pod_to_node : Object → List Bytes
map_pod_to_node (pod_object pod) = if is_empty pod.node_name then [] else pod.node_name ∷ []
map_pod_to_node _ = []

map_policy_to_node : Bytes → Object → List Bytes
map_policy_to_node node_name policy_object = node_name ∷ []
map_policy_to_node node_name _ = []

map_namespace_to_node : Bytes → Object → List Bytes
map_namespace_to_node node_name namespace_object = node_name ∷ []
map_namespace_to_node node_name _ = []

map_net_def_to_node : Bytes → Object → List Bytes
map_net_def_to_node node_name net_def_object = node_name ∷ []
map_net_def_to_node node_name _ = []

pod_hostname_extractor : Pod → List Bytes
pod_hostname_extractor pod = if is_empty pod.node_name then [] else pod.node_name ∷ []
