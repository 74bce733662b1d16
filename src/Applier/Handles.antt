-- ===== src/Applier/Handles.antt =====
-- What the work on one pod opens, closes and writes, on every branch.
use mathlib.Core.List.{append_assoc, append-nil}
use mathlib.Core.Path.{subst}
use multi_networkpolicy_nfta.Applier.{
  HandleCall, opened_ns, closed_ns, opened_conn, closed_conn, Host, Namespaces, note_call,
  host_path, run_in, max_int, in_namespace, over_lasting, render_in, apply_rules_for_pod, flush_in,
  flush_rules_for_pod,
}
use multi_networkpolicy_nfta.Nft.{Transcript, Conn}
use multi_networkpolicy_nfta.Cluster.{Policy, Pod, PodInfo, CommonRuleConfig, PolicyDeps}
use multi_networkpolicy_nfta.Render.{apply_policy_rules_for_pod_and_family}
use multi_networkpolicy_nfta.Shutdown.{flush_rules_in_namespace}
use multi_networkpolicy_nfta.Base.{
  ltb, ◌==◌, if◌then◌else◌, Bool-cases, Option-cases, Bytes, Err, fd_overflow, Result, ok, err,
  Result-cases, ℕ, ◌≡◌, refl, sym, ap, ◌∙◌, ◌⊎◌, inl, inr, true, Option, none, some, List, [], ◌∷◌,
  ◌++◌, arith,
}

pub data Handle : Type 0 where
  ns_handle conn_handle : ℕ → Handle

-- The handles that are open after the calls, the last one first. No value where a call closes
-- anything but the handle that was opened last.
abbrev pub unwind : List HandleCall → List Handle → Option (List Handle)
unwind [] open_ = some open_
unwind (opened_ns fd ∷ cs) open_ = unwind cs (ns_handle fd ∷ open_)
unwind (opened_conn fd ∷ cs) open_ = unwind cs (conn_handle fd ∷ open_)
unwind (closed_ns fd ∷ cs) (ns_handle g ∷ open_) =
    let rest = unwind cs open_ in if fd == g then rest else none
unwind (closed_conn fd ∷ cs) (conn_handle g ∷ open_) =
    let rest = unwind cs open_ in if fd == g then rest else none
unwind (closed_ns _ ∷ _) _ = none
unwind (closed_conn _ ∷ _) _ = none

-- The calls between two hosts close all that they open, in reverse order, and nothing else.
abbrev pub ClosesAll : Host → Host → Type 0
ClosesAll h h' =
    (added : List HandleCall) × (h'.calls ≡ h.calls ++ added)
    × ((open_ : List Handle) → unwind added open_ ≡ some open_)

module _ ⦃ns : Namespaces⦄ where
  -- An error and nothing written, or the program has run once, in the namespace at the path, and
  -- its answer is the answer.
  abbrev pub RanIn : Bytes → (ℕ → Conn (Unit {0})) → Host → Result (Unit {0}) × Host → Type 0
  RanIn path program h (r, h') =
      ((h'.written ≡ h.written) × (e : Err) × (r ≡ err e))
      ⊎ ((fd : ℕ) × (ns.get_ns path ≡ ok fd)
          × (h'.written ≡ h.written ++ ((fd, (program fd []).1) ∷ []))
          × (r ≡ (program fd []).0))

-- a path below a prefix, where there is one
abbrev pub below : Bytes → Bytes → Bytes
below [] path = path
below (c ∷ prefix) path = (c ∷ prefix) ++ (b'/' ∷ path)

host_path-below : (host_prefix path : Bytes) → host_path host_prefix path ≡ below host_prefix path
host_path-below [] path = refl
host_path-below (c ∷ prefix) path = refl

==-refl : (n : ℕ) → (n == n) ≡ true
==-refl n = ground arith

two_calls :
    (fd : ℕ) (open_ : List Handle) → unwind (opened_ns fd ∷ closed_ns fd ∷ []) open_ ≡ some open_
two_calls fd open_ = rw (==-refl fd) refl

four_calls :
    (fd : ℕ) (open_ : List Handle)
    → unwind (opened_ns fd ∷ opened_conn fd ∷ closed_conn fd ∷ closed_ns fd ∷ []) open_ ≡ some open_
four_calls fd open_ = rw (==-refl fd) refl

append_two :
    {A : Type 0} (xs : List A) (a b : A) → (xs ++ (a ∷ [])) ++ (b ∷ []) ≡ xs ++ (a ∷ b ∷ [])
append_two xs a b = append_assoc xs (a ∷ []) (b ∷ [])

append_four :
    {A : Type 0} (xs : List A) (a b c d : A)
    → (((xs ++ (a ∷ [])) ++ (b ∷ [])) ++ (c ∷ [])) ++ (d ∷ []) ≡ xs ++ (a ∷ b ∷ c ∷ d ∷ [])
append_four xs a b c d =
    ap (λ l. (l ++ (c ∷ [])) ++ (d ∷ [])) (append_two xs a b)
    ∙ append_two (xs ++ (a ∷ b ∷ [])) c d
    ∙ append_assoc xs (a ∷ b ∷ []) (c ∷ d ∷ [])

module _ ⦃ns : Namespaces⦄ where
  -- the host after the program has run between the opening and the closing of a connection
  abbrev rendered : ℕ → Transcript → Host → Host
  rendered fd t h = record {
    calls = (h.calls ++ (opened_conn fd ∷ [])) ++ (closed_conn fd ∷ []);
    written = h.written ++ ((fd, t) ∷ []);
  }

  over_lasting-cases :
      (program : Conn (Unit {0})) (fd : ℕ) (h : Host)
      → ((e : Err) × (over_lasting fd program h ≡ (err e, h)))
        ⊎ (over_lasting fd program h ≡ ((program []).0, rendered fd (program []).1 h))
  unfolding over_lasting
  over_lasting-cases program fd h = elim (Option-cases (ns.new_lasting fd)) [
    | inr (e, k) ↦ inl (e, rw (k, over_lasting) refl)
    | inl k ↦ inr (rw (k, over_lasting) refl)
  ]

  render_in-cases :
      (program : ℕ → Conn (Unit {0})) (fd : ℕ) (h : Host)
      → ((e : Err) × (render_in program fd h ≡ (err e, h)))
        ⊎ (render_in program fd h ≡ ((program fd []).0, rendered fd (program fd []).1 h))
  unfolding render_in
  render_in-cases program fd h = elim (Bool-cases (ltb max_int fd)) [
    | inl big ↦ inl (fd_overflow, ground (arith, big))
    | inr small ↦ elim (over_lasting-cases (program fd) fd h) [
      | inl (e, q) ↦ inl (e, ground (arith, small, q))
      | inr q ↦ inr (ground (arith, small, q))
    ]
  ]

  in_namespace-render :
      (path : Bytes) (program : ℕ → Conn (Unit {0})) (h : Host)
      → ClosesAll h (in_namespace path (render_in program) h).1
        × RanIn path program h (in_namespace path (render_in program) h)
  unfolding in_namespace
  in_namespace-render path program h = elim (Result-cases (ns.get_ns path)) [
    | inr (e, q) ↦
        rw (q, in_namespace) (([], sym (append-nil h.calls), λ _. refl), inl (refl, e, refl))
    | inl (fd, q) ↦ elim (render_in-cases program fd (note_call (opened_ns fd) h)) [
      | inl (e, k) ↦
          rw (q, k, in_namespace)
            (
              (_, append_two h.calls (opened_ns fd) (closed_ns fd), two_calls fd),
              inl (refl, e, refl),
            )
      | inr k ↦
          rw (q, k, in_namespace)
            (
              (
                _,
                append_four h.calls (opened_ns fd) (opened_conn fd) (closed_conn fd) (closed_ns fd),
                four_calls fd,
              ),
              inr (fd, refl, refl, refl),
            )
    ]
  ]

  flush_in-cases :
      (fd : ℕ) (h : Host)
      → ((e : Err) × (flush_in fd h ≡ (err e, h)))
        ⊎ (flush_in fd h ≡ run_in fd (flush_rules_in_namespace ⦃lib = ns.kernel fd⦄) h)
  unfolding flush_in
  flush_in-cases fd h = elim (Option-cases (ns.enter fd)) [
    | inr (e, q) ↦ inl (e, rw (q, flush_in) refl)
    | inl q ↦ elim (Option-cases (ns.new_here fd)) [
      | inr (e, k) ↦ inl (e, rw (q, k, flush_in) refl)
      | inl k ↦ inr (rw (q, k, flush_in) refl)
    ]
  ]

  in_namespace-flush :
      (path : Bytes) (h : Host)
      → ClosesAll h (in_namespace path flush_in h).1
        × RanIn path
            (λ fd. flush_rules_in_namespace ⦃lib = ns.kernel fd⦄)
            h
            (in_namespace path flush_in h)
  unfolding in_namespace
  in_namespace-flush path h = elim (Result-cases (ns.get_ns path)) [
    | inr (e, q) ↦
        rw (q, in_namespace) (([], sym (append-nil h.calls), λ _. refl), inl (refl, e, refl))
    | inl (fd, q) ↦ elim (flush_in-cases fd (note_call (opened_ns fd) h)) [
      | inl (e, k) ↦
          rw (q, k, in_namespace)
            (
              (_, append_two h.calls (opened_ns fd) (closed_ns fd), two_calls fd),
              inl (refl, e, refl),
            )
      | inr k ↦
          rw (q, k, in_namespace)
            (
              (_, append_two h.calls (opened_ns fd) (closed_ns fd), two_calls fd),
              inr (fd, refl, refl, refl),
            )
    ]
  ]

  -- the render of a pod in the namespace of a descriptor
  abbrev pub render_of :
      PolicyDeps → CommonRuleConfig → List Policy → Pod → PodInfo → ℕ → Conn (Unit {0})
  render_of deps cfg policy_map pod pod_info fd =
      apply_policy_rules_for_pod_and_family ⦃lib = ns.kernel fd⦄ deps cfg policy_map pod pod_info

  -- applyRulesForPod renders the policies of the pod once, over a connection into the namespace at
  -- the path of the pod below the host's prefix, and answers what the render answers; or it fails
  -- and writes nothing at all. On every branch it closes what it has opened, the connection before
  -- the namespace, and nothing else.
  pub apply_rules_for_pod-RanIn :
      (deps : PolicyDeps) (cfg : CommonRuleConfig) (policy_map : List Policy) (pod : Pod)
      (pod_info : PodInfo) (host_prefix : Bytes) (h : Host)
      → let out = apply_rules_for_pod deps cfg policy_map pod pod_info host_prefix h in
        let path = below host_prefix pod_info.net_ns_path in
        ClosesAll h out.1 × RanIn path (render_of deps cfg policy_map pod pod_info) h out
  unfolding apply_rules_for_pod
  apply_rules_for_pod-RanIn deps cfg policy_map pod pod_info host_prefix h =
      let program = render_of deps cfg policy_map pod pod_info in
      let path = host_path host_prefix pod_info.net_ns_path in
      let (closes, ran) = in_namespace-render path program h in
      (
        closes,
        subst (λ p. RanIn p program h (in_namespace path (render_in program) h))
            (host_path-below host_prefix pod_info.net_ns_path) ran,
      )

  -- flushRulesForPod flushes once, in the namespace at the path below the host's prefix, and answers
  -- what the flush answers; or it fails and writes nothing at all. On every branch it closes the
  -- namespace that it has opened, and nothing else.
  pub flush_rules_for_pod-RanIn :
      (netns_path host_prefix : Bytes) (h : Host)
      → let out = flush_rules_for_pod netns_path host_prefix h in
        let program = λ (fd : ℕ). flush_rules_in_namespace ⦃lib = ns.kernel fd⦄ in
        ClosesAll h out.1 × RanIn (below host_prefix netns_path) program h out
  unfolding flush_rules_for_pod
  flush_rules_for_pod-RanIn netns_path host_prefix h =
      let path = host_path host_prefix netns_path in
      let (closes, ran) = in_namespace-flush path h in
      (
        closes,
        subst
            (λ p.
              RanIn p (λ fd. flush_rules_in_namespace ⦃lib = ns.kernel fd⦄) h
                (in_namespace path flush_in h))
            (host_path-below host_prefix netns_path) ran,
      )
