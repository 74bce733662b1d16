-- ===== src/Render.antt =====
-- A render of one pod: ApplyPolicyRulesForPodAndFamily, getEnabledPolicyTypes and
-- CompareInternalPolicy of pkg/server/server.go.
pub mod Growth
pub mod Selection
pub mod DefaultDeny
pub mod Order
mod Samples
use multi_networkpolicy_nfta.Nft.{Chain, flush, Libraries, Conn, Render, on_conn, attempt, gets}
use multi_networkpolicy_nfta.Fields.{policy_namespaced_name}
use multi_networkpolicy_nfta.Cluster.{
  Labels, PolicyRule, Policy, Pod, PodInfo, CommonRuleConfig, PolicyDeps, check_policy_network,
}
use multi_networkpolicy_nfta.PolicyRules.{apply_pod_rules}
use multi_networkpolicy_nfta.Marks.{apply_general_mark_check, apply_drop_remaining}
use multi_networkpolicy_nfta.CommonRules.{apply_common_chain_rules}
use multi_networkpolicy_nfta.Cleanup.{cleanup}
use multi_networkpolicy_nfta.Bootstrap.{bootstrap_netfilter_rules}
use multi_networkpolicy_nfta.Base.{
  leb, ◌==◌, if◌then◌else◌, is_empty, any, Bytes, codes, eq_bytes, le_bytes, replace_byte,
  split_byte, ok, err, ◌>>=◌, ◌>>◌, pure, when, sort_by, ℕ, ◌+◌, Bool, true, false, not, ◌&&◌, ◌||◌,
  Option, none, some, List, [], ◌∷◌, ◌++◌, map,
}

pub record InternalPolicy : Type 0 where
  pub policy : Policy
  pub policy_networks : List Bytes

-- CompareInternalPolicy(a, b) <= 0
abbrev pub le_internal_policy : InternalPolicy → InternalPolicy → Bool
le_internal_policy a b =
    le_bytes (policy_namespaced_name a.policy) (policy_namespaced_name b.policy)

abbrev to_lower : ℕ → ℕ
to_lower c = if leb b'A' c && leb c b'Z' then c + 32 else c

-- strings.EqualFold against a name in ASCII letters without k and s, which fold with letters
-- outside ASCII
equal_fold : Bytes → Bytes → Bool
equal_fold s t = eq_bytes (map to_lower s) (map to_lower t)

abbrev is_some : Option (List PolicyRule) → Bool
is_some none = false
is_some (some _) = true

-- the loop over `PolicyTypes`
enabled_types : List Bytes → Bool × Bool → Bool × Bool
unfolding equal_fold
enabled_types [] acc = acc
enabled_types (v ∷ vs) (ingress, egress) = enabled_types vs (
    if equal_fold v (codes "Ingress")
    then (true, egress)
    else if equal_fold v (codes "Egress")
    then (ingress, true)
    else (ingress, egress))

unfoldable pub get_enabled_policy_types : Policy → Bool × Bool
unfolding enabled_types
get_enabled_policy_types policy =
    if not (is_empty policy.policy_types)
    then enabled_types policy.policy_types (false, false)
    else (is_some policy.ingress, is_some policy.egress)

abbrev pub policy_network_annotation : Bytes
policy_network_annotation = codes "k8s.v1.cni.cncf.io/policy-for"

-- a lookup in a map of strings
abbrev pub annotation : Bytes → Labels → Option Bytes
annotation key [] = none
annotation key ((k, v) ∷ rest) = if eq_bytes key k then some v else annotation key rest

-- a network named without a slash lies in the policy's namespace
qualify : Bytes → Bytes → Bytes
qualify namespace network =
    if any (λ c. c == b'/') network then network else namespace ++ (codes "/" ++ network)

pub policy_networks_of : Policy → Bytes → List Bytes
unfolding qualify
policy_networks_of policy text =
    sort_by le_bytes (map (qualify policy.namespace) (split_byte b',' (replace_byte b' ' [] text)))

module _ (deps : PolicyDeps) where
  -- whether the policy's pod selector takes the pod; a bad selector takes none
  pub selects_pod : Policy → Pod → Bool
  selects_pod policy pod =
      if deps.selector_size policy.pod_selector == 0
      then true
      else elim (deps.as_selector policy.pod_selector) [
        | err e ↦ false
        | ok sel ↦ deps.selector_matches sel pod.labels
      ]

  -- the policies for ingress and for egress
  abbrev add_policy :
      InternalPolicy
      → Bool × Bool
      → List InternalPolicy × List InternalPolicy
      → List InternalPolicy × List InternalPolicy
  add_policy p (ingress, egress) (ins, outs) =
      (if ingress then ins ++ (p ∷ []) else ins, if egress then outs ++ (p ∷ []) else outs)

  -- one round of the loop over the policy map
  pub consider_policy :
      Pod
      → PodInfo
      → Policy
      → List InternalPolicy × List InternalPolicy
      → List InternalPolicy × List InternalPolicy
  unfolding selects_pod policy_networks_of
  consider_policy pod pod_info policy acc =
      if not (eq_bytes policy.namespace pod.namespace)
      then acc
      else if not (selects_pod policy pod)
      then acc
      else elim (annotation policy_network_annotation policy.annotations) [
        | none ↦ acc
        | some text ↦
            let networks = policy_networks_of policy text in
            if check_policy_network pod_info networks
            then add_policy (record { policy = policy; policy_networks = networks })
                (get_enabled_policy_types policy) acc
            else acc
      ]

  pub sort_policies :
      Pod
      → PodInfo
      → List Policy
      → List InternalPolicy × List InternalPolicy
      → List InternalPolicy × List InternalPolicy
  unfolding consider_policy
  sort_policies pod pod_info [] acc = acc
  sort_policies pod pod_info (p ∷ ps) acc =
      sort_policies pod pod_info ps (consider_policy pod pod_info p acc)

module _ ⦃lib : Libraries⦄ (deps : PolicyDeps) where
  -- the loop over the policies of one direction; the flag is `forceUpdate`
  unfoldable pub apply_policies : Chain → PodInfo → List InternalPolicy → Bool → Render Bool
  apply_policies chain pod_info [] force_update = pure force_update
  apply_policies chain pod_info (p ∷ ps) force_update = do
    new_rules ← apply_pod_rules deps chain pod_info p.policy p.policy_networks
    apply_general_mark_check chain p.policy
    apply_policies chain pod_info ps (new_rules || force_update)

  unfoldable pub apply_direction : Chain → PodInfo → List InternalPolicy → Render (Unit {0})
  unfolding apply_policies
  apply_direction chain pod_info policies = when (not (is_empty policies)) (do
    force_update ← apply_policies chain pod_info policies false
    apply_drop_remaining chain force_update)

  pub render_rules :
      CommonRuleConfig → PodInfo → List InternalPolicy → List InternalPolicy → Render (Unit {0})
  unfolding apply_direction
  render_rules cfg pod_info ins outs = do
    apply_common_chain_rules cfg
    ingress ← gets (λ s. s.ingress_chain)
    apply_direction ingress pod_info (sort_by le_internal_policy ins)
    egress ← gets (λ s. s.egress_chain)
    apply_direction egress pod_info (sort_by le_internal_policy outs)
    on_conn (attempt flush)
    cleanup

  -- `policy_map` is the policies in the order in which Go visits the map.
  unfoldable pub apply_policy_rules_for_pod_and_family :
      CommonRuleConfig → List Policy → Pod → PodInfo → Conn (Unit {0})
  unfolding sort_policies render_rules
  apply_policy_rules_for_pod_and_family cfg policy_map pod pod_info = do
    (info, s) ← bootstrap_netfilter_rules pod_info
    let (ins, outs) = sort_policies deps pod info policy_map ([], [])
    λ _. let (r, s') = render_rules cfg info ins outs s in (r, s'.sent)
