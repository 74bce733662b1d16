-- ===== src/Render/Selection.antt =====
-- Which policies a render applies to a pod, and in which direction.
use multi_networkpolicy_nfta.Render.{
  InternalPolicy, get_enabled_policy_types, policy_network_annotation, annotation,
  policy_networks_of, selects_pod,
}
use multi_networkpolicy_nfta.Cluster.{Policy, Pod, PodInfo, PolicyDeps, check_policy_network}
use multi_networkpolicy_nfta.Base.{Any, Bytes, eq_bytes, ◌≡◌, Bool, true, false, some, List}

-- the ingress or the egress part of a pair
abbrev pub side {ℓ} : {A : Type ℓ} → Bool → A × A → A
side true p = p.0
side false p = p.1

abbrev pub taken : Policy → Bytes → InternalPolicy
taken policy text = record { policy = policy; policy_networks = policy_networks_of policy text }

module _ (deps : PolicyDeps) where
  -- The policy is in the pod's namespace, its pod selector takes the pod, its annotation names
  -- networks, and an interface of the pod is on one of them.
  abbrev pub Selects : Pod → PodInfo → Policy → InternalPolicy → Type 0
  Selects pod pod_info policy chosen =
      (eq_bytes policy.namespace pod.namespace ≡ true)
      × (selects_pod deps policy pod ≡ true)
      × (text : Bytes) × (annotation policy_network_annotation policy.annotations ≡ some text)
      × (check_policy_network pod_info (policy_networks_of policy text) ≡ true)
      × (chosen ≡ taken policy text)

  abbrev pub Chooses : Bool → Pod → PodInfo → Policy → InternalPolicy → Type 0
  Chooses dir pod pod_info policy chosen =
      Selects pod pod_info policy chosen × (side dir (get_enabled_policy_types policy) ≡ true)

  abbrev pub Among : InternalPolicy → List InternalPolicy → Type 0
  Among chosen ps = Any (λ p. p ≡ chosen) ps
