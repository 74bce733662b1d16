-- ===== src/Daemon/Samples.antt =====
-- A daemon whose manager ends by a signal, with a client of the container runtime made.
use multi_networkpolicy_nfta.Daemon.{Platform, run, exit_status}
use multi_networkpolicy_nfta.Daemon.Closing.{Ended, Flushed, run-EndsWell}
use multi_networkpolicy_nfta.Reconcile.{CriState}
use multi_networkpolicy_nfta.Nft.Fake.{fresh}
use multi_networkpolicy_nfta.Options.{
  Options, new_options, add_flags, parse_ip_prefix_text, validate, build_reconciler_config,
}
use multi_networkpolicy_nfta.Base.{
  codes, Err, empty_endpoint, ok, ℕ, ◌≡◌, refl, true, false, Option, none, some, [],
}

abbrev signalled : Platform
signalled = record {
  in_cluster_config = ok 1;
  client_config = λ path master. ok 2;
  add_multi_policies_to_scheme = none;
  add_net_defs_to_scheme = none;
  add_core_to_scheme = none;
  new_manager = λ config period. ok 3;
  index_field = λ manager index. none;
  complete = λ manager. none;
  new_client = λ config. ok 4;
  serve = λ manager s. (none, record s { client = some 9 });
  canceled = true;
  close_conn = λ c. none;
}

abbrev given_options : Options
given_options = record (add_flags new_options) {
  container_runtime_endpoint = codes "/run/cri.sock";
}

abbrev quiet_cleanup : ℕ → CriState → Option Err × CriState
quiet_cleanup direct s = (none, s)

-- without an endpoint the daemon does not start
endpoint_missing :
    (run signalled ⦃lib = fresh⦄ (λ name. ok (codes "node1")) (add_flags new_options) quiet_cleanup)
    ≡ record { result = some empty_endpoint; cri = none; closed = []; cleaned = false }
unfolding run add_flags new_options validate parse_ip_prefix_text build_reconciler_config
endpoint_missing = refl

run-EndsWell_example :
    let r = run signalled ⦃lib = fresh⦄ (λ name. ok (codes "node1")) given_options quiet_cleanup in
    Ended signalled quiet_cleanup r × (exit_status r ≡ 0 → Flushed signalled quiet_cleanup r)
run-EndsWell_example =
    run-EndsWell signalled quiet_cleanup ⦃lib = fresh⦄ (λ name. ok (codes "node1")) given_options
