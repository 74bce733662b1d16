-- ===== src/Daemon.antt =====
-- The start of the daemon: run and main of cmd/multi-networkpolicy-nftables/main.go, with
-- SetupScheme and SetupIndexes of pkg/controller.
pub mod Closing
mod Samples
use multi_networkpolicy_nfta.Nft.{Libraries}
use multi_networkpolicy_nfta.Options.{Options, ReconcilerConfig, build_reconciler_config}
use multi_networkpolicy_nfta.Reconcile.{CriState, close_cri}
use multi_networkpolicy_nfta.Shutdown.{start_manager_and_cleanup}
use multi_networkpolicy_nfta.Base.{
  ltb, if◌then◌else◌, is_empty, Bytes, codes, Err, Result, ok, err, ℤ, pos, negsuc, ℕ, suc, ◌-◌,
  ◌*◌, ◌%◌, ◌^◌, Bool, false, Option, none, some, List, [], ◌∷◌,
}

-- client-go and controller-runtime: how a connection to the API server is configured, made and
-- served. Configurations, managers and clients are numbered. `serve` is the run of the manager, with
-- what it leaves of the reconciler's CRI client, and `canceled` says whether a signal has ended the
-- context.
pub record Platform : Type 0 where
  pub in_cluster_config : Result ℕ
  pub client_config : Bytes → Bytes → Result ℕ
  pub add_multi_policies_to_scheme : Option Err
  pub add_net_defs_to_scheme : Option Err
  pub add_core_to_scheme : Option Err
  pub new_manager : ℕ → ℤ → Result ℕ
  pub index_field : ℕ → Bytes → Option Err
  pub complete : ℕ → Option Err
  pub new_client : ℕ → Result ℕ
  pub serve : ℕ → CriState → Option Err × CriState
  pub canceled : Bool
  pub close_conn : ℕ → Option Err

-- a signed number of 64 bits
abbrev wrap64 : ℕ → ℤ
wrap64 n = let m = n % 2 ^ 64 in if ltb m (2 ^ 63) then pos m else negsuc (2 ^ 64 - 1 - m)

-- time.Duration(n) * time.Second
abbrev seconds : ℤ → ℤ
seconds (pos n) = wrap64 (n * 1000000000)
seconds (negsuc n) = wrap64 (2 ^ 64 - (suc n * 1000000000) % 2 ^ 64)

abbrev pod_hostname_index : Bytes
pod_hostname_index = codes "spec.nodeName"

-- the first error of a list of calls
abbrev first_error : List (Option Err) → Option Err
first_error [] = none
first_error (some e ∷ _) = some e
first_error (none ∷ rest) = first_error rest

-- What a run did: its result, the state of the CRI client as it is left (none where no reconciler
-- was made), the clients that were closed at the end, and whether the clean-up was called.
pub record Run : Type 0 where
  pub result : Option Err
  pub cri : Option CriState
  pub closed : List ℕ
  pub cleaned : Bool

abbrev failed : Err → Run
failed e = record { result = some e; cri = none; closed = []; cleaned = false }

module _ (p : Platform) where
  rest_config : ReconcilerConfig → Result ℕ
  rest_config cfg =
      if is_empty cfg.kubeconfig
      then p.in_cluster_config
      else p.client_config cfg.kubeconfig cfg.master

  setup_scheme : Option Err
  setup_scheme =
      first_error
        (p.add_multi_policies_to_scheme ∷ p.add_net_defs_to_scheme ∷ p.add_core_to_scheme ∷ [])

  setup_indexes : ℕ → Option Err
  setup_indexes manager = p.index_field manager pod_hostname_index

  -- the deferred CloseCRI, an error of which is only logged
  closing : Option Err × CriState × Bool → Run
  closing (result, s, cleaned) =
      let (_, left, closed) = close_cri p.close_conn s in
      record { result = result; cri = some left; closed = closed; cleaned = cleaned }

  -- the end of a run; `cleanup` is CleanupOnShutdown with a direct client
  serve_and_cleanup :
      ℕ → (CriState → Option Err × CriState) → CriState → Option Err × CriState × Bool
  serve_and_cleanup manager cleanup s =
      let (start, s1) = p.serve manager s in
      let (cleaned, s2) = cleanup s1 in
      let (ran, result) = start_manager_and_cleanup start p.canceled cleaned in
      (result, if ran then s2 else s1, ran)

  -- what follows the deferral
  unfoldable pub with_reconciler :
      ℕ → ℕ → (ℕ → CriState → Option Err × CriState) → CriState → Option Err × CriState × Bool
  unfolding serve_and_cleanup
  with_reconciler config manager cleanup s = elim (p.complete manager) [
    | some e ↦ (some e, s, false)
    | none ↦ elim (p.new_client config) [
      | err e ↦ (some e, s, false)
      | ok direct ↦ serve_and_cleanup manager (cleanup direct) s
    ]
  ]

  with_manager : ReconcilerConfig → ℕ → ℕ → (ℕ → CriState → Option Err × CriState) → Run
  unfolding setup_indexes with_reconciler closing
  with_manager cfg config manager cleanup = elim (setup_indexes manager) [
    | some e ↦ failed e
    | none ↦ closing (
        with_reconciler config manager cleanup
          (record { endpoint = cfg.container_runtime_endpoint; client = none }))
  ]

  with_config : ReconcilerConfig → ℕ → (ℕ → CriState → Option Err × CriState) → Run
  unfolding setup_scheme with_manager
  with_config cfg config cleanup = elim setup_scheme [
    | some e ↦ failed e
    | none ↦ elim (p.new_manager config (seconds cfg.sync_period_seconds)) [
      | err e ↦ failed e
      | ok manager ↦ with_manager cfg config manager cleanup
    ]
  ]

  unfoldable pub run :
      ⦃lib : Libraries⦄
      → (Bytes → Result Bytes)
      → Options
      → (ℕ → CriState → Option Err × CriState)
      → Run
  unfolding rest_config with_config
  run get_hostname opts cleanup = elim (build_reconciler_config get_hostname opts) [
    | err e ↦ failed e
    | ok cfg ↦ elim (rest_config cfg) [
      | err e ↦ failed e
      | ok config ↦ with_config cfg config cleanup
    ]
  ]

-- main: the exit status
unfoldable pub exit_status : Run → ℕ
exit_status r = elim r.result [ none ↦ 0 | some _ ↦ 1 ]
