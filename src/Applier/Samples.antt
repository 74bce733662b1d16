-- ===== src/Applier/Samples.antt =====
-- A host on which the namespaces at /proc/7/ns/net and at the prefix /host are there.
use multi_networkpolicy_nfta.Applier.{
  opened_ns, closed_ns, Host, Namespaces, apply_rules_for_pod, flush_rules_for_pod,
}
use multi_networkpolicy_nfta.Applier.Handles.{
  ClosesAll, RanIn, below, render_of, apply_rules_for_pod-RanIn, flush_rules_for_pod-RanIn,
}
use multi_networkpolicy_nfta.Cluster.Fake.{
  quiet_cluster, web_pod, web_info, deny_policy, no_options,
}
use multi_networkpolicy_nfta.Nft.Fake.{fresh}
use multi_networkpolicy_nfta.Shutdown.{flush_rules_in_namespace}
use multi_networkpolicy_nfta.Base.{codes, fd_overflow, ok, err, ◌^◌, ◌≡◌, refl, none, [], ◌∷◌}

abbrev empty_host : Host
empty_host = record { calls = []; written = [] }

abbrev working : Namespaces
working = record {
  get_ns = λ path. ok 7;
  enter = λ fd. none;
  new_lasting = λ fd. none;
  new_here = λ fd. none;
  kernel = λ fd. fresh;
}

-- a descriptor that does not fit into an int
abbrev huge : Namespaces
huge = record working { get_ns = λ path. ok (2 ^ 63) }

-- the namespace is closed although the render never began
huge_descriptor :
    apply_rules_for_pod ⦃ns = huge⦄ quiet_cluster no_options
      (deny_policy ∷ [])
      web_pod
      web_info
      (codes "/host")
      empty_host
    ≡ (
      err fd_overflow,
      record { calls = opened_ns (2 ^ 63) ∷ closed_ns (2 ^ 63) ∷ []; written = [] },
    )
unfolding apply_rules_for_pod
huge_descriptor = refl

apply_rules_for_pod-RanIn_example :
    let out =
      apply_rules_for_pod ⦃ns = working⦄ quiet_cluster no_options
        (deny_policy ∷ [])
        web_pod
        web_info
        (codes "/host")
        empty_host in
    let path = below (codes "/host") web_info.net_ns_path in
    ClosesAll empty_host out.1
    × RanIn ⦃ns = working⦄ path
        (render_of ⦃ns = working⦄ quiet_cluster no_options (deny_policy ∷ []) web_pod web_info)
        empty_host
        out
apply_rules_for_pod-RanIn_example =
    apply_rules_for_pod-RanIn ⦃ns = working⦄ quiet_cluster no_options (deny_policy ∷ []) web_pod
      web_info (codes "/host") empty_host

flush_rules_for_pod-RanIn_example :
    let out =
      flush_rules_for_pod ⦃ns = working⦄ (codes "/proc/7/ns/net") (codes "/host") empty_host in
    let path = below (codes "/host") (codes "/proc/7/ns/net") in
    ClosesAll empty_host out.1
    × RanIn ⦃ns = working⦄ path (λ fd. flush_rules_in_namespace ⦃lib = fresh⦄) empty_host out
flush_rules_for_pod-RanIn_example =
    flush_rules_for_pod-RanIn ⦃ns = working⦄ (codes "/proc/7/ns/net") (codes "/host") empty_host
