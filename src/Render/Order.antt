-- ===== src/Render/Order.antt =====
-- The order in which Go visits the policy map.
use mathlib.Core.List.{append_assoc, append-nil}
use mathlib.Core.Path.{fun_ext}
use multi_networkpolicy_nfta.Nft.{Transcript, Libraries, NftState, Conn, Render}
use multi_networkpolicy_nfta.Render.{
  InternalPolicy, le_internal_policy, get_enabled_policy_types, policy_network_annotation,
  annotation, policy_networks_of, selects_pod, add_policy, consider_policy, sort_policies,
  render_rules, apply_policy_rules_for_pod_and_family,
}
use multi_networkpolicy_nfta.Render.Selection.{side, taken}
use multi_networkpolicy_nfta.Cluster.{
  Policy, Pod, PodInfo, CommonRuleConfig, PolicyDeps, check_policy_network,
}
use multi_networkpolicy_nfta.Fields.{policy_namespaced_name}
use multi_networkpolicy_nfta.Bootstrap.{bootstrap_netfilter_rules}
use multi_networkpolicy_nfta.Base.{
  if◌then◌else◌, Bool-cases, Option-cases, Bytes, eq_bytes, ◌>>=◌, sort_by, Reordered, unchanged,
  exchanged, behind, followed, sort_by-Reordered, ◌≡◌, refl, sym, ap, ◌∙◌, ◌≢◌, ◌⊎◌, inl, inr, Bool,
  true, false, List, [], ◌∷◌, ◌++◌,
}

abbrev rendered_name : InternalPolicy → Bytes
rendered_name p = policy_namespaced_name p.policy

Reordered-append :
    (zs xs ys : List InternalPolicy)
    → Reordered rendered_name xs ys
    → Reordered rendered_name (zs ++ xs) (zs ++ ys)
Reordered-append [] xs ys r = r
Reordered-append (z ∷ zs) xs ys r = behind z (Reordered-append zs xs ys r)

nil_side : (dir : Bool) → side {A = List InternalPolicy} dir ([], []) ≡ []
nil_side true = refl
nil_side false = refl

side_nil :
    (dir : Bool) (acc : List InternalPolicy × List InternalPolicy)
    → side dir acc ≡ side dir acc ++ side dir ([], [])
side_nil true acc = sym (append-nil acc.0)
side_nil false acc = sym (append-nil acc.1)

module _ (deps : PolicyDeps) (pod : Pod) (pod_info : PodInfo) where
  -- a round of the loop leaves the lists as they are, or adds the policy
  consider_cases :
      (policy : Policy)
      → ((acc : List InternalPolicy × List InternalPolicy)
          → consider_policy deps pod pod_info policy acc ≡ acc)
        ⊎ ((p : InternalPolicy) × (p.policy ≡ policy)
            × ((acc : List InternalPolicy × List InternalPolicy)
                → consider_policy deps pod pod_info policy acc
                  ≡ add_policy deps p (get_enabled_policy_types policy) acc))
  unfolding consider_policy
  consider_cases policy = elim (Bool-cases (eq_bytes policy.namespace pod.namespace)) [
    | inr away ↦ inl (λ acc. rw (away, consider_policy) refl)
    | inl here ↦ elim (Bool-cases (selects_pod deps policy pod)) [
      | inr misses ↦ inl (λ acc. rw (here, consider_policy) (rw misses refl))
      | inl takes ↦ elim (Option-cases (annotation policy_network_annotation policy.annotations)) [
        | inl silent ↦ inl (λ acc. rw (here, consider_policy) (rw takes (rw silent refl)))
        | inr (text, names) ↦
            elim (Bool-cases (check_policy_network pod_info (policy_networks_of policy text))) [
              | inr off ↦
                  inl (λ acc. rw (here, consider_policy) (rw takes (rw names (rw off refl))))
              | inl on ↦ inr (
                taken policy text,
                refl,
                λ acc. rw (here, consider_policy) (rw takes (rw names (rw on refl))),
              )
            ]
      ]
    ]
  ]

  -- what one policy adds in a direction
  part : Bool → Policy → List InternalPolicy
  part dir policy = side dir (consider_policy deps pod pod_info policy ([], []))

  parts : Bool → List Policy → List InternalPolicy
  parts dir [] = []
  parts dir (p ∷ ps) = let later = parts dir ps in part dir p ++ later

  add_policy-side :
      (dir : Bool) (p : InternalPolicy) (enabled : Bool × Bool)
      (acc : List InternalPolicy × List InternalPolicy)
      → side dir (add_policy deps p enabled acc)
        ≡ side dir acc ++ (if side dir enabled then p ∷ [] else [])
  add_policy-side true p (true, e) (ins, outs) = refl
  add_policy-side true p (false, e) (ins, outs) = rw append-nil refl
  add_policy-side false p (i, true) (ins, outs) = refl
  add_policy-side false p (i, false) (ins, outs) = rw append-nil refl

  consider_policy-side :
      (dir : Bool) (policy : Policy) (acc : List InternalPolicy × List InternalPolicy)
      → side dir (consider_policy deps pod pod_info policy acc) ≡ side dir acc ++ part dir policy
  unfolding part
  consider_policy-side dir policy acc = elim (consider_cases policy) [
    | inl same ↦ rw (same acc) (rw (same ([], [])) (side_nil dir acc))
    | inr (p, e, adds) ↦ rw (adds acc) (
        rw (adds ([], [])) (
          add_policy-side dir p (get_enabled_policy_types policy) acc
          ∙ ap (λ xs. side dir acc ++ xs)
              (sym (
                add_policy-side dir p (get_enabled_policy_types policy) ([], [])
                ∙ ap
                    (λ xs.
                      xs ++ (if side dir (get_enabled_policy_types policy) then p ∷ [] else []))
                    (nil_side dir)))))
  ]

  -- a part has at most one policy, and that of its name
  part_cases :
      (dir : Bool) (policy : Policy)
      → (part dir policy ≡ [])
        ⊎ ((p : InternalPolicy) × (part dir policy ≡ p ∷ []) × (p.policy ≡ policy))
  unfolding part
  part_cases dir policy = elim (consider_cases policy) [
    | inl same ↦ inl (rw (same ([], [])) (nil_side dir))
    | inr (p, e, adds) ↦ rw (adds ([], [])) (
        let form =
          add_policy-side dir p (get_enabled_policy_types policy) ([], [])
          ∙ ap (λ xs. xs ++ (if side dir (get_enabled_policy_types policy) then p ∷ [] else []))
              (nil_side dir) in
        elim (Bool-cases (side dir (get_enabled_policy_types policy))) [
          | inl t ↦ inr (p, form ∙ rw t refl, e)
          | inr t ↦ inl (form ∙ rw t refl)
        ])
  ]

  sort_policies-parts :
      (dir : Bool) (ps : List Policy) (acc : List InternalPolicy × List InternalPolicy)
      → side dir (sort_policies deps pod pod_info ps acc) ≡ side dir acc ++ parts dir ps
  unfolding sort_policies parts
  sort_policies-parts dir [] acc = sym (append-nil (side dir acc))
  sort_policies-parts dir (p ∷ ps) acc =
      sort_policies-parts dir ps (consider_policy deps pod pod_info p acc)
      ∙ ap (λ xs. xs ++ parts dir ps) (consider_policy-side dir p acc)
      ∙ append_assoc (side dir acc) (part dir p) (parts dir ps)

  exchanged_parts :
      (dir : Bool) (x y : Policy) (rest : List InternalPolicy)
      → policy_namespaced_name x ≢ policy_namespaced_name y
      → Reordered rendered_name
          (part dir x ++ (part dir y ++ rest))
          (part dir y ++ (part dir x ++ rest))
  exchanged_parts dir x y rest differ = elim (part_cases dir x) [
    | inl no_x ↦ rw no_x unchanged
    | inr (p, is_x, e) ↦ elim (part_cases dir y) [
      | inl no_y ↦ rw no_y unchanged
      | inr (q, is_y, f) ↦
          rw (is_x, is_y)
            (exchanged p q (λ same.
              differ (ap policy_namespaced_name (sym e) ∙ same ∙ ap policy_namespaced_name f)))
    ]
  ]

  parts-Reordered :
      (dir : Bool) (ps qs : List Policy)
      → Reordered policy_namespaced_name ps qs
      → Reordered rendered_name (parts dir ps) (parts dir qs)
  unfolding parts
  parts-Reordered dir _ _ unchanged = unchanged
  parts-Reordered dir _ _ (exchanged {xs} x y differ) =
      exchanged_parts dir x y (parts dir xs) differ
  parts-Reordered dir _ _ (behind {xs} {ys} x r) =
      Reordered-append (part dir x) (parts dir xs) (parts dir ys) (parts-Reordered dir xs ys r)
  parts-Reordered dir _ _ (followed {xs} {ys} {zs} r s) =
      followed (parts-Reordered dir xs ys r) (parts-Reordered dir ys zs s)

  -- The policies of a direction are rendered in one order, whatever the order is in which Go visits the
  -- policy map, if the policies have different namespaced names.
  sort_policies-Reordered :
      (dir : Bool) (ps qs : List Policy)
      → Reordered policy_namespaced_name ps qs
      → sort_by le_internal_policy (side dir (sort_policies deps pod pod_info ps ([], [])))
        ≡ sort_by le_internal_policy (side dir (sort_policies deps pod pod_info qs ([], [])))
  sort_policies-Reordered dir ps qs r =
      rw (sort_policies-parts dir ps ([], []), sort_policies-parts dir qs ([], []))
        (sort_by-Reordered rendered_name (side dir ([], []) ++ parts dir ps)
          (side dir ([], []) ++ parts dir qs)
          (Reordered-append (side dir ([], [])) (parts dir ps) (parts dir qs)
            (parts-Reordered dir ps qs r)))

module _ ⦃lib : Libraries⦄ (deps : PolicyDeps) where
  render_rules-sorted :
      (cfg : CommonRuleConfig) (info : PodInfo) (ins ins' outs outs' : List InternalPolicy)
      → sort_by le_internal_policy ins ≡ sort_by le_internal_policy ins'
      → sort_by le_internal_policy outs ≡ sort_by le_internal_policy outs'
      → render_rules deps cfg info ins outs ≡ render_rules deps cfg info ins' outs'
  unfolding render_rules
  render_rules-sorted cfg info ins ins' outs outs' e f = rw e (rw f refl)

  -- A whole render of a pod, its result and all that it sends, is the same for every order in which Go
  -- may visit the policy map, if the policies have different namespaced names.
  pub apply_policy_rules_for_pod_and_family-Reordered :
      (cfg : CommonRuleConfig) (ps qs : List Policy) (pod : Pod) (pod_info : PodInfo)
      (t : Transcript)
      → Reordered policy_namespaced_name ps qs
      → apply_policy_rules_for_pod_and_family deps cfg ps pod pod_info t
        ≡ apply_policy_rules_for_pod_and_family deps cfg qs pod pod_info t
  unfolding apply_policy_rules_for_pod_and_family
  apply_policy_rules_for_pod_and_family-Reordered cfg ps qs pod pod_info t r =
      ap
        (λ (rest : PodInfo × NftState → Conn (Unit {0})).
          (bootstrap_netfilter_rules pod_info >>= rest) t)
        (fun_ext (λ (info, s). fun_ext (λ u.
          ap (λ (m : Render (Unit {0})). let (answer, s') = m s in (answer, s'.sent))
            (render_rules-sorted cfg info _ _ _ _
              (sort_policies-Reordered deps pod info true ps qs r)
              (sort_policies-Reordered deps pod info false ps qs r)))))
