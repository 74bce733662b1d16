-- ===== src/Reconcile/Samples.antt =====
-- Two pods of a node, of which one is on the host's network.
use multi_networkpolicy_nfta.Reconcile.{build_policy_map, reconcile, get_pod_info_of, CriState}
use multi_networkpolicy_nfta.Reconcile.Exact.{wanted, failures, answer_of, reconcile-exact}
use multi_networkpolicy_nfta.Reconcile.PolicyMap.{policy_at, last_at, policy_at-build_policy_map}
use multi_networkpolicy_nfta.Cluster.{Policy, Pod, PodInfo}
use multi_networkpolicy_nfta.Cluster.Fake.{web_pod, web_info, deny_policy}
use multi_networkpolicy_nfta.Networks.{json_number, json_object, no_members, member, PodLibraries}
use multi_networkpolicy_nfta.Base.{
  keep, codes, Err, no_cri, Result, ok, err, ◌≡◌, true, false, Option, none, some, List, [], ◌∷◌,
}

abbrev host_pod : Pod
host_pod = record web_pod { host_network = true }

abbrev info_of : Pod → Result PodInfo
info_of pod = ok web_info

abbrev failing : List Policy → Pod → PodInfo → Option Err
failing policies pod info = some no_cri

reconcile-exact_example :
    reconcile
      (codes "node1")
      info_of
      failing
      (ok (deny_policy ∷ []))
      (ok (host_pod ∷ web_pod ∷ []))
      (codes "node1")
    ≡ record {
      applied = keep (wanted info_of) (host_pod ∷ web_pod ∷ []);
      result = answer_of (
          failures info_of
            (failing (build_policy_map (deny_policy ∷ [])))
            (host_pod ∷ web_pod ∷ []));
    }
reconcile-exact_example =
    reconcile-exact (codes "node1") info_of failing (deny_policy ∷ []) (host_pod ∷ web_pod ∷ [])

abbrev client_state : CriState
client_state = record { endpoint = codes "/run/crio.sock"; client = none }

abbrev other_deny : Policy
other_deny = record deny_policy { policy_types = codes "Egress" ∷ [] }

policy_at-build_policy_map_example :
    policy_at (codes "team") (codes "deny") (build_policy_map (deny_policy ∷ other_deny ∷ []))
    ≡ last_at (codes "team") (codes "deny") (deny_policy ∷ other_deny ∷ []) none
policy_at-build_policy_map_example =
    policy_at-build_policy_map (codes "team") (codes "deny") (deny_policy ∷ other_deny ∷ [])

-- one network, of which the runtime knows the process
abbrev macvlan_net : PodLibraries
macvlan_net = record {
  parse_networks = λ pod. record { name = codes "net1"; namespace = [] } ∷ [];
  get_network_status = λ pod. ok (
      record { name = codes "team/net1"; interface = codes "net1"; default = false; ips = [] }
      ∷ []);
  parse_statuses = λ text. none;
  get_plugin_type = λ key. ok (codes "macvlan");
  container_status = λ id. ok (codes "{\"pid\":42}");
  unmarshal =
      λ info. ok (json_object (member (codes "pid") (json_number 0x4045000000000000) no_members));
}

abbrev local_pod : Pod
local_pod = record web_pod {
  container_statuses =
      record { name = codes "app"; container_id = codes "cri-o://ab"; running = true } ∷ [];
}

abbrev local_info : PodInfo
local_info =
    elim (get_pod_info_of ⦃pl = macvlan_net⦄ (codes "node1") (codes "macvlan" ∷ []) none
      local_pod) [ ok info ↦ info | err e ↦ web_info ]
