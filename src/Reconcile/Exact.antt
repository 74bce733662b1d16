-- ===== src/Reconcile/Exact.antt =====
-- What one call of Reconcile does, said without its loop.
use mathlib.Core.List.{append_assoc, append-nil}
use multi_networkpolicy_nfta.Reconcile.{
  Outcome, Progress, build_policy_map, note_error, after_apply, reconcile_pod, reconcile_pods,
  finish, after_lists, reconcile,
}
use multi_networkpolicy_nfta.Cluster.{Policy, Pod, PodInfo, is_multi_networkpolicy_target}
use multi_networkpolicy_nfta.Base.{
  if◌then◌else◌, Bool-cases, Option-cases, is_empty, keep, Bytes, eq_bytes_iff, Err, joined,
  join_errors, Result, ok, err, Result-cases, ◌≡◌, refl, sym, ap, ◌∙◌, ◌⊎◌, inl, inr, Bool, true,
  false, not, ◌&&◌, Option, none, some, List, [], ◌∷◌, ◌++◌, arith,
}

-- a pod whose rules are to be rendered
abbrev pub wanted : (Pod → Result PodInfo) → Pod → Bool
wanted get_pod_info pod =
    is_multi_networkpolicy_target pod
    && (elim (get_pod_info pod) [ err e ↦ false | ok info ↦ not (is_empty info.interfaces) ])

-- the error that a pod causes
abbrev pub failure : (Pod → Result PodInfo) → (Pod → PodInfo → Option Err) → Pod → List Err
failure get_pod_info apply pod =
    if is_multi_networkpolicy_target pod
    then (elim (get_pod_info pod) [
      | err e ↦ e ∷ []
      | ok info ↦
          if is_empty info.interfaces
          then []
          else elim (apply pod info) [ none ↦ [] | some e ↦ e ∷ [] ]
    ])
    else []

abbrev pub failures : (Pod → Result PodInfo) → (Pod → PodInfo → Option Err) → List Pod → List Err
failures get_pod_info apply [] = []
failures get_pod_info apply (pod ∷ pods) =
    failure get_pod_info apply pod ++ failures get_pod_info apply pods

-- the answer to some errors: never a later retry of its own
abbrev pub answer_of : List Err → Result Outcome
answer_of errors = elim (join_errors errors) [
  | none ↦ ok (record { requeue_after = none })
  | some e ↦ err e
]

is_empty-snoc : (es : List Err) (e : Err) → is_empty (es ++ (e ∷ [])) ≡ false
is_empty-snoc [] e = refl
is_empty-snoc (x ∷ es) e = refl

keep-cons {ℓ} :
    {A : Type ℓ} (p : A → Bool) (x : A) (xs : List A)
    → keep p (x ∷ []) ++ keep p xs ≡ keep p (x ∷ xs)
keep-cons p x xs = ground arith

errors_cases :
    (es : List Err)
    → ((is_empty es ≡ true) × (join_errors es ≡ none)) ⊎ ((e : Err) × (join_errors es ≡ some e))
errors_cases [] = inl (refl, refl)
errors_cases (e ∷ es) = elim (Option-cases (join_errors es)) [
  | inl h ↦ inr (e, rw h refl)
  | inr (r, h) ↦ inr (joined e r, rw h refl)
]

module _ (get_pod_info : Pod → Result PodInfo) (apply : Pod → PodInfo → Option Err) where
  -- the flag is raised only with an error
  abbrev Flagged : Progress → Type 0
  Flagged p = p.retry_needed ≡ true → is_empty p.retry_errs ≡ false

  reconcile_pod-exact :
      (pod : Pod) (p : Progress)
      → Flagged p
      → let q = reconcile_pod get_pod_info apply pod p in
        (q.applied ≡ p.applied ++ keep (wanted get_pod_info) (pod ∷ []))
        × (q.retry_errs ≡ p.retry_errs ++ failure get_pod_info apply pod)
        × Flagged q
  unfolding reconcile_pod after_apply note_error
  reconcile_pod-exact pod p h = elim (Bool-cases (is_multi_networkpolicy_target pod)) [
    | inr e ↦ rw e (sym (append-nil p.applied), sym (append-nil p.retry_errs), h)
    | inl e ↦ rw e (elim (Result-cases (get_pod_info pod)) [
      | inr (x, r) ↦ rw r (sym (append-nil p.applied), refl, λ _. is_empty-snoc p.retry_errs x)
      | inl (info, r) ↦ rw r (elim (Bool-cases (is_empty info.interfaces)) [
        | inl t ↦ rw t (sym (append-nil p.applied), sym (append-nil p.retry_errs), h)
        | inr t ↦ rw t (elim (Option-cases (apply pod info)) [
          | inl fine ↦ rw fine (refl, sym (append-nil p.retry_errs), h)
          | inr (x, bad) ↦ rw bad (refl, refl, λ _. is_empty-snoc p.retry_errs x)
        ])
      ])
    ])
  ]

  reconcile_pods-exact :
      (pods : List Pod) (p : Progress)
      → Flagged p
      → let q = reconcile_pods get_pod_info apply pods p in
        (q.applied ≡ p.applied ++ keep (wanted get_pod_info) pods)
        × (q.retry_errs ≡ p.retry_errs ++ failures get_pod_info apply pods)
        × Flagged q
  unfolding reconcile_pods
  reconcile_pods-exact [] p h = (sym (append-nil p.applied), sym (append-nil p.retry_errs), h)
  reconcile_pods-exact (pod ∷ pods) p h =
      let (a, e, f) = reconcile_pod-exact pod p h in
      let (a', e', f') = reconcile_pods-exact pods (reconcile_pod get_pod_info apply pod p) f in
      (
        a'
            ∙ rw a (
                append_assoc p.applied (keep (wanted get_pod_info) (pod ∷ []))
                  (keep (wanted get_pod_info) pods)
                ∙ ap (λ xs. p.applied ++ xs) (keep-cons (wanted get_pod_info) pod pods)),
        e'
            ∙ rw e (
                append_assoc p.retry_errs (failure get_pod_info apply pod)
                  (failures get_pod_info apply pods)),
        f',
      )

  finish-exact :
      (p : Progress)
      → Flagged p
      → finish get_pod_info apply p
        ≡ record { applied = p.applied; result = answer_of p.retry_errs }
  unfolding finish
  finish-exact p h = elim (errors_cases p.retry_errs) [
    | inl (none_, e) ↦
        rw (e, finish)
          (elim (Bool-cases p.retry_needed) [
            | inl t ↦ cc (h t, none_)
            | inr t ↦ rw t (rw (e, answer_of) refl)
          ])
    | inr (x, e) ↦ rw (e, finish) (rw (e, answer_of) refl)
  ]

-- A reconcile of this node whose two lists can be read applies the rules of exactly the pods that are
-- running outside the host network and have an interface to filter, each once and in the order of
-- the list; a pod that fails stops no other. The answer is the errors of all pods, joined, and where
-- there are none it is empty: no later retry is ever asked for.
pub reconcile-exact :
    (node_name : Bytes) (get_pod_info : Pod → Result PodInfo)
    (apply : List Policy → Pod → PodInfo → Option Err) (policies : List Policy) (pods : List Pod)
    → reconcile node_name get_pod_info apply (ok policies) (ok pods) node_name ≡ record {
      applied = keep (wanted get_pod_info) pods;
      result = answer_of (failures get_pod_info (apply (build_policy_map policies)) pods);
    }
unfolding reconcile after_lists
reconcile-exact node_name get_pod_info apply policies pods =
    let put = apply (build_policy_map policies) in
    let (a, e, f) =
      reconcile_pods-exact get_pod_info put pods
        (record { retry_needed = false; retry_errs = []; applied = [] }) (λ h. cc) in
    let q =
      reconcile_pods get_pod_info put pods
        (record { retry_needed = false; retry_errs = []; applied = [] }) in
    rw ((eq_bytes_iff node_name node_name).1 refl)
      (rw (finish-exact get_pod_info put q f) (rw (a, e) refl))
