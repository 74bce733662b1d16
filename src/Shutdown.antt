-- ===== src/Shutdown.antt =====
-- The end of the daemon: startManagerAndCleanup of cmd/multi-networkpolicy-nftables/main.go,
-- cleanupAllPods of pkg/controller/cleanup_linux.go and flushRulesForPod of
-- pkg/controller/applier_linux.go.
pub mod Exact
pub mod OwnOnly
pub mod Deletes
mod Samples
use multi_networkpolicy_nfta.Nft.{inet, del_table, flush, Libraries, Conn, send, attempt}
use multi_networkpolicy_nfta.Cluster.{Pod, is_multi_networkpolicy_target}
use multi_networkpolicy_nfta.Chains.{filter_table_name, nat_table_name}
use multi_networkpolicy_nfta.Legacy.{cleanup_legacy_tables}
use multi_networkpolicy_nfta.Base.{
  if◌then◌else◌, is_empty, Bytes, Err, empty_netns, joined, is_not_exist, join_errors, Result, ok,
  err, ◌>>=◌, ◌>>◌, check, ℕ, zero, suc, Bool, true, false, not, Option, none, some, List, [], ◌∷◌,
  ◌++◌,
}

abbrev join_two : Option Err → Option Err → Option Err
join_two none e = e
join_two (some a) none = some a
join_two (some a) (some b) = some (joined a b)

-- `canceled` is ctx.Err() != nil, and `cleanup` what the clean-up answers where it runs. The
-- result says whether it ran.
unfoldable pub start_manager_and_cleanup : Option Err → Bool → Option Err → Bool × Option Err
start_manager_and_cleanup none canceled cleanup = (true, cleanup)
start_manager_and_cleanup (some e) false cleanup = (false, some e)
start_manager_and_cleanup (some e) true cleanup = (true, join_two (some e) cleanup)

-- the pods that were flushed, and the errors
pub record Flushes : Type 0 where
  pub flushed : List Pod
  pub errors : List Err

abbrev note_flush : Option Err → Flushes → Flushes
note_flush none w = w
note_flush (some e) w = record w { errors = w.errors ++ (e ∷ []) }

-- `cri` is the answer of criRuntimeClient, `path` that of GetPodNetNSPathWithContext, and
-- `flush_rules` that of flushRulesForPod.
module _ (cri : Option Err) (path : Pod → Result Bytes)
    (flush_rules : Pod → Bytes → Option Err) where
  flush_at : Pod → Result Bytes → Flushes → Flushes
  flush_at pod (err e) w = record w { errors = w.errors ++ (e ∷ []) }
  flush_at pod (ok p) w =
      if is_empty p
      then record w { errors = w.errors ++ (empty_netns ∷ []) }
      else note_flush (flush_rules pod p) (record w { flushed = w.flushed ++ (pod ∷ []) })

  -- `canceled` holds ctx.Err() before each round; an error of the result ends the loop.
  cleanup_pods : List (Option Err × Pod) → Flushes → Flushes × Option Err
  unfolding flush_at
  cleanup_pods [] w = (w, join_errors w.errors)
  cleanup_pods ((some e, pod) ∷ rest) w = (w, some e)
  cleanup_pods ((none, pod) ∷ rest) w =
      let skipped = cleanup_pods rest w in
      let next = cleanup_pods rest (flush_at pod (path pod) w) in
      if not (is_multi_networkpolicy_target pod)
      then skipped
      else elim cri [ some e ↦ (w, some e) | none ↦ next ]

  -- The pods of the node, each with the state of the context when its round begins.
  cleanup_all_pods : Result (List (Option Err × Pod)) → Flushes × Option Err
  unfolding cleanup_pods
  cleanup_all_pods (err e) = (record { flushed = []; errors = [] }, some e)
  cleanup_all_pods (ok pods) = cleanup_pods pods (record { flushed = []; errors = [] })

module _ ⦃lib : Libraries⦄ where
  -- the loop over the managed tables, with `deleted`
  delete_tables : List Bytes → ℕ → Conn ℕ
  delete_tables [] deleted t = (ok deleted, t)
  delete_tables (name ∷ rest) deleted t = elim (lib.list_table_of_family t name inet) [
    | ok table ↦ (send (del_table table) >> delete_tables rest (suc deleted)) t
    | err e ↦ if is_not_exist e then delete_tables rest deleted t else (err e, t)
  ]

  flush_if : List Err → ℕ → Conn (Unit {0})
  flush_if errors zero t = check (join_errors errors) t
  flush_if errors (suc n) t =
      let (answer, t') = attempt flush t in
      elim answer [
        | ok _ ↦ check (join_errors errors) t'
        | err e ↦ check (join_errors (errors ++ (e ∷ []))) t'
      ]

  abbrev error_list : Result (Unit {0}) → List Err
  error_list (ok _) = []
  error_list (err e) = e ∷ []

  -- What runs inside the network namespace of the pod.
  unfoldable pub flush_rules_in_namespace : Conn (Unit {0})
  unfolding delete_tables flush_if
  flush_rules_in_namespace t =
      let (legacy, t') = cleanup_legacy_tables t in
      (delete_tables (filter_table_name ∷ nat_table_name ∷ []) 0 >>= flush_if (error_list legacy))
        t'
