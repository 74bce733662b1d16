-- ===== src/Reconcile/PolicyMap.antt =====
-- The policy map as a map.
use multi_networkpolicy_nfta.Reconcile.{replace_policy, policy_map_from, build_policy_map}
use multi_networkpolicy_nfta.Cluster.{Policy}
use multi_networkpolicy_nfta.Base.{
  if◌then◌else◌, Bytes, eq_bytes, eq_bytes_iff, ◌≡◌, refl, ap, ◌∙◌, Bool, ◌&&◌, Option, none, some,
  List, [], ◌∷◌, arith,
}

-- whether a policy has the key, a namespace and a name
abbrev pub has_name : Bytes → Bytes → Policy → Bool
has_name namespace name p = eq_bytes namespace p.namespace && eq_bytes name p.name

-- the policy under a key
abbrev pub policy_at : Bytes → Bytes → List Policy → Option Policy
policy_at namespace name [] = none
policy_at namespace name (p ∷ ps) =
    if has_name namespace name p then some p else policy_at namespace name ps

-- the last policy of a list with a key
abbrev pub last_at : Bytes → Bytes → List Policy → Option Policy → Option Policy
last_at namespace name [] before = before
last_at namespace name (p ∷ ps) before =
    last_at namespace name ps (if has_name namespace name p then some p else before)

policy_at-replace_policy :
    (namespace name : Bytes) (p : Policy) (pm : List Policy)
    → policy_at namespace name (replace_policy p pm)
      ≡ (if has_name namespace name p then some p else policy_at namespace name pm)
unfolding replace_policy
policy_at-replace_policy namespace name p [] = refl
policy_at-replace_policy namespace name p (q ∷ qs) = ground (
  arith,
  eq_bytes_iff p.namespace q.namespace,
  eq_bytes_iff p.name q.name,
  eq_bytes_iff namespace p.namespace,
  eq_bytes_iff namespace q.namespace,
  eq_bytes_iff name p.name,
  eq_bytes_iff name q.name,
  policy_at-replace_policy namespace name p qs,
)

policy_at-policy_map_from :
    (namespace name : Bytes) (ps pm : List Policy)
    → policy_at namespace name (policy_map_from ps pm)
      ≡ last_at namespace name ps (policy_at namespace name pm)
unfolding policy_map_from
policy_at-policy_map_from namespace name [] pm = refl
policy_at-policy_map_from namespace name (p ∷ ps) pm =
    policy_at-policy_map_from namespace name ps (replace_policy p pm)
    ∙ ap (last_at namespace name ps) (policy_at-replace_policy namespace name p pm)

-- Under a namespace and a name the policy map has the last policy of the list that has them, and
-- nothing where none has.
pub policy_at-build_policy_map :
    (namespace name : Bytes) (ps : List Policy)
    → policy_at namespace name (build_policy_map ps) ≡ last_at namespace name ps none
unfolding build_policy_map
policy_at-build_policy_map namespace name ps = policy_at-policy_map_from namespace name ps []
