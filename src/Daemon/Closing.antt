-- ===== src/Daemon/Closing.antt =====
-- What every end of a run has in common.
use multi_networkpolicy_nfta.Daemon.{
  Platform, seconds, Run, failed, rest_config, setup_scheme, setup_indexes, closing,
  serve_and_cleanup, with_reconciler, with_manager, with_config, run, exit_status,
}
use multi_networkpolicy_nfta.Nft.{Libraries}
use multi_networkpolicy_nfta.Options.{Options, ReconcilerConfig, build_reconciler_config}
use multi_networkpolicy_nfta.Reconcile.{CriState, close_cri}
use multi_networkpolicy_nfta.Shutdown.{start_manager_and_cleanup}
use multi_networkpolicy_nfta.Base.{
  Option-cases, Bytes, Err, Result, Result-cases, ℕ, ◌≡◌, refl, sym, ap, ◌∙◌, ◌⊎◌, inl, inr, Bool,
  true, false, Option, none, some, List, [], ◌∷◌, arith,
}

exit_status-none : (r : Run) → exit_status r ≡ 0 → r.result ≡ none
unfolding exit_status
exit_status-none r h = elim (Option-cases r.result) [
  | inl e ↦ e
  | inr (e, q) ↦ absurd (ground (arith, q))
]

-- the client that a state holds
abbrev pub held : CriState → List ℕ
held s = elim s.client [ none ↦ [] | some c ↦ c ∷ [] ]

-- the state of a new reconciler
abbrev pub fresh_state : ReconcilerConfig → CriState
fresh_state cfg = record { endpoint = cfg.container_runtime_endpoint; client = none }

start_manager_and_cleanup-none :
    (start cleaned : Option Err) (canceled : Bool)
    → (start_manager_and_cleanup start canceled cleaned).1 ≡ none
    → ((start_manager_and_cleanup start canceled cleaned).0 ≡ true) × (cleaned ≡ none)
unfolding start_manager_and_cleanup
start_manager_and_cleanup-none none cleaned canceled h = (refl, h)
start_manager_and_cleanup-none (some e) none true h = cc
start_manager_and_cleanup-none (some e) (some e') true h = cc
start_manager_and_cleanup-none (some e) cleaned false h = cc

module _ (p : Platform) (cleanup : ℕ → CriState → Option Err × CriState) where
  -- No reconciler was made, and nothing is left open; or the run of the manager and the clean-up
  -- left a state, whose client, where it has one, was then closed and is gone.
  abbrev pub Ended : Run → Type 0
  Ended r =
      ((e : Err) × (r ≡ failed e))
      ⊎ ((cfg : ReconcilerConfig) × (config : ℕ) × (manager : ℕ) × (let out =
              with_reconciler p config manager cleanup (fresh_state cfg) in
            (r.result ≡ out.0)
            × (r.closed ≡ held out.1)
            × (r.cri ≡ some (record out.1 { client = none }))))

  -- the clean-up was called on the state that the manager left, and reported no error
  abbrev pub Flushed : Run → Type 0
  Flushed r =
      (cfg : ReconcilerConfig) × (manager : ℕ) × (direct : ℕ) × (let served =
          (p.serve manager (fresh_state cfg)).1 in
        ((cleanup direct served).0 ≡ none) × (r.closed ≡ held (cleanup direct served).1))

  closing-held :
      (out : Option Err × CriState × Bool)
      → ((closing p out).result ≡ out.0)
        × ((closing p out).closed ≡ held out.1)
        × ((closing p out).cri ≡ some (record out.1 { client = none }))
  unfolding closing close_cri
  closing-held (result, s, cleaned) = elim (Option-cases s.client) [
    | inl e ↦ (refl, rw e refl, ground (arith, e))
    | inr (c, e) ↦ (refl, rw e refl, rw e refl)
  ]

  with_reconciler-none :
      (config manager : ℕ) (s : CriState)
      → (with_reconciler p config manager cleanup s).0 ≡ none
      → (direct : ℕ) × (let served = (p.serve manager s).1 in
          ((cleanup direct served).0 ≡ none)
          × ((with_reconciler p config manager cleanup s).1 ≡ (cleanup direct served).1))
  unfolding with_reconciler serve_and_cleanup
  with_reconciler-none config manager s h = elim (Option-cases (p.complete manager)) [
    | inr (e, q) ↦ absurd (ground (arith, q, h))
    | inl q ↦ elim (Result-cases (p.new_client config)) [
      | inr (e, k) ↦ absurd (ground (arith, q, k, h))
      | inl (direct, k) ↦
          let (start, served) = p.serve manager s in
          let (cleaned, left) = cleanup direct served in
          let (ran, fine) =
            start_manager_and_cleanup-none start cleaned p.canceled
              (rw (q, k, with_reconciler) at h) in
          (direct, (fine, rw (q, k, with_reconciler) (rw ran refl)))
    ]
  ]

  with_manager-Ended :
      (cfg : ReconcilerConfig) (config manager : ℕ)
      → Ended (with_manager p cfg config manager cleanup)
  unfolding with_manager
  with_manager-Ended cfg config manager = elim (Option-cases (setup_indexes p manager)) [
    | inr (e, q) ↦ rw (q, with_manager) (inl (e, refl))
    | inl q ↦
        rw (q, with_manager)
          (inr (
            cfg,
            config,
            manager,
            closing-held (with_reconciler p config manager cleanup (fresh_state cfg)),
          ))
  ]

  with_config-Ended :
      (cfg : ReconcilerConfig) (config : ℕ) → Ended (with_config p cfg config cleanup)
  unfolding with_config
  with_config-Ended cfg config = elim (Option-cases (setup_scheme p)) [
    | inr (e, q) ↦ rw (q, with_config) (inl (e, refl))
    | inl q ↦ elim (Result-cases (p.new_manager config (seconds cfg.sync_period_seconds))) [
      | inr (e, k) ↦ rw (q, k, with_config) (inl (e, refl))
      | inl (manager, k) ↦ rw (q, k, with_config) (with_manager-Ended cfg config manager)
    ]
  ]

  run-Ended :
      ⦃lib : Libraries⦄ (get_hostname : Bytes → Result Bytes) (opts : Options)
      → Ended (run p get_hostname opts cleanup)
  unfolding run
  run-Ended get_hostname opts = elim (Result-cases (build_reconciler_config get_hostname opts)) [
    | inr (e, q) ↦ rw (q, run) (inl (e, refl))
    | inl (cfg, q) ↦ elim (Result-cases (rest_config p cfg)) [
      | inr (e, k) ↦ rw (q, k, run) (inl (e, refl))
      | inl (config, k) ↦ rw (q, k, run) (with_config-Ended cfg config)
    ]
  ]

  Ended-Flushed : (r : Run) → Ended r → r.result ≡ none → Flushed r
  Ended-Flushed r (inl (e, q)) h = absurd (ground (arith, ap (λ (k : Run). k.result) q, h))
  Ended-Flushed r (inr (cfg, config, manager, (result, closed, cri))) h =
      let (direct, (fine, left)) =
        with_reconciler-none config manager (fresh_state cfg) (sym result ∙ h) in
      (cfg, manager, direct, (fine, closed ∙ ap held left))

  -- However a run of the daemon ends, no client of the container runtime stays open: either the run
  -- failed before it made a reconciler, or Close was called once on the client that the manager and
  -- the clean-up left, where there was one, and on no other, and the client is forgotten. A run with
  -- the exit status 0 has called CleanupOnShutdown after the manager, and that reported no error.
  pub run-EndsWell :
      ⦃lib : Libraries⦄ (get_hostname : Bytes → Result Bytes) (opts : Options)
      → let r = run p get_hostname opts cleanup in Ended r × (exit_status r ≡ 0 → Flushed r)
  run-EndsWell get_hostname opts =
      let ends = run-Ended get_hostname opts in
      let r = run p get_hostname opts cleanup in
      (ends, λ h. Ended-Flushed r ends (exit_status-none r h))
