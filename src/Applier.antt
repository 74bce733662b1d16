-- ===== src/Applier.antt =====
-- The rules of a pod in its network namespace: applyRulesForPod and flushRulesForPod of
-- pkg/controller/applier_linux.go, and the stubs of applier_other.go and cleanup_other.go.
pub mod Handles
mod Samples
use multi_networkpolicy_nfta.Nft.{Transcript, Libraries, Conn}
use multi_networkpolicy_nfta.Cluster.{Policy, Pod, PodInfo, CommonRuleConfig, PolicyDeps}
use multi_networkpolicy_nfta.Render.{apply_policy_rules_for_pod_and_family}
use multi_networkpolicy_nfta.Shutdown.{flush_rules_in_namespace}
use multi_networkpolicy_nfta.Base.{
  ltb, if◌then◌else◌, is_empty, Bytes, codes, Err, fd_overflow, unsupported_platform, Result, ok,
  err, Exec, ℕ, ◌-◌, ◌^◌, not, Option, none, some, List, [], ◌∷◌, ◌++◌,
}

-- What the code opens and closes, in order: namespaces and connections, by their file descriptors.
pub data HandleCall : Type 0 where
  opened_ns closed_ns opened_conn closed_conn : ℕ → HandleCall

-- the calls on handles, and what was written over a connection into the namespace of a descriptor
pub record Host : Type 0 where
  pub calls : List HandleCall
  pub written : List (ℕ × Transcript)

-- containernetworking/plugins/pkg/ns and the constructor of google/nftables: GetNS by a path, the
-- change of the thread's namespace in Do, the two forms of New, and the kernel's nftables in a
-- namespace.
pub record Namespaces : Type 0 where
  pub get_ns : Bytes → Result ℕ
  pub enter : ℕ → Option Err
  pub new_lasting : ℕ → Option Err
  pub new_here : ℕ → Option Err
  pub kernel : ℕ → Libraries

abbrev note_call : HandleCall → Host → Host
note_call c h = record h { calls = h.calls ++ (c ∷ []) }

-- `defer`: the call is made when the body has ended, with or without an error
abbrev deferring : HandleCall → Exec Host (Unit {0}) → Exec Host (Unit {0})
deferring c body h = let (r, h') = body h in (r, note_call c h')

abbrev host_path : Bytes → Bytes → Bytes
host_path host_prefix path =
    if not (is_empty host_prefix) then host_prefix ++ (codes "/" ++ path) else path

-- what a program on the connection of a namespace answers and writes
abbrev run_in : ℕ → Conn (Unit {0}) → Exec Host (Unit {0})
run_in fd program h =
    let (r, t) = program [] in (r, record h { written = h.written ++ ((fd, t) ∷ []) })

abbrev max_int : ℕ
max_int = 2 ^ 63 - 1

module _ ⦃ns : Namespaces⦄ where
  in_namespace : Bytes → (ℕ → Exec Host (Unit {0})) → Exec Host (Unit {0})
  in_namespace path body h = elim (ns.get_ns path) [
    | err e ↦ (err e, h)
    | ok fd ↦ deferring (closed_ns fd) (body fd) (note_call (opened_ns fd) h)
  ]

  over_lasting : ℕ → Conn (Unit {0}) → Exec Host (Unit {0})
  over_lasting fd program h = elim (ns.new_lasting fd) [
    | some e ↦ (err e, h)
    | none ↦ deferring (closed_conn fd) (run_in fd program) (note_call (opened_conn fd) h)
  ]

  -- the body between the two deferred calls
  render_in : (ℕ → Conn (Unit {0})) → ℕ → Exec Host (Unit {0})
  unfolding over_lasting
  render_in program fd h =
      if ltb max_int fd then (err fd_overflow, h) else over_lasting fd (program fd) h

  unfoldable pub apply_rules_for_pod :
      PolicyDeps → CommonRuleConfig → List Policy → Pod → PodInfo → Bytes → Exec Host (Unit {0})
  unfolding in_namespace render_in
  apply_rules_for_pod deps cfg policy_map pod pod_info host_prefix =
      in_namespace (host_path host_prefix pod_info.net_ns_path) (
        render_in (λ fd.
          apply_policy_rules_for_pod_and_family ⦃lib = ns.kernel fd⦄ deps cfg policy_map pod
            pod_info))

  -- Do: the thread's namespace is changed, and the connection is the thread's own
  flush_in : ℕ → Exec Host (Unit {0})
  flush_in fd h = elim (ns.enter fd) [
    | some e ↦ (err e, h)
    | none ↦ elim (ns.new_here fd) [
      | some e ↦ (err e, h)
      | none ↦ run_in fd (flush_rules_in_namespace ⦃lib = ns.kernel fd⦄) h
    ]
  ]

  unfoldable pub flush_rules_for_pod : Bytes → Bytes → Exec Host (Unit {0})
  unfolding in_namespace flush_in
  flush_rules_for_pod netns_path host_prefix =
      in_namespace (host_path host_prefix netns_path) flush_in

-- the stubs for other platforms
unfoldable pub apply_rules_elsewhere : Exec Host (Unit {0})
apply_rules_elsewhere h = (err unsupported_platform, h)

unfoldable pub flush_rules_elsewhere : Exec Host (Unit {0})
flush_rules_elsewhere h = (ok tt, h)

unfoldable pub cleanup_all_pods_elsewhere : Exec Host (Unit {0})
cleanup_all_pods_elsewhere h = (err unsupported_platform, h)
