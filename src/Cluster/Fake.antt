-- ===== src/Cluster/Fake.antt =====
-- A cluster for tests: no pods but those that a test names, and selectors that take every pod.
use multi_networkpolicy_nfta.Cluster.Objects.{Policy, Pod, PodInfo, CommonRuleConfig, PolicyDeps}
use multi_networkpolicy_nfta.Base.{codes, no_cri, ok, err, true, false, none, [], ◌∷◌}

abbrev pub quiet_cluster : PolicyDeps
quiet_cluster = record {
  list_pods = λ sel. ok [];
  get_namespace_labels = λ ns. ok [];
  get_pod_info = λ pod. err no_cri;
  as_selector = λ sel. ok (record { raw = sel.raw });
  everything = record { raw = [] };
  selector_matches = λ sel labels. true;
  selector_size = λ sel. 0;
  selector_text = λ sel. sel.raw;
  map_order = λ keys. keys;
}

-- a running pod with one interface
abbrev pub web_pod : Pod
web_pod = record {
  namespace = codes "team";
  name = codes "web";
  labels = [];
  annotations = none;
  phase = codes "Running";
  host_network = false;
  node_name = codes "node1";
  container_statuses = [];
}

abbrev pub web_info : PodInfo
web_info = record {
  name = codes "web";
  namespace = codes "team";
  net_ns_path = [];
  network_status = [];
  node_name = codes "node1";
  interfaces =
      record {
        netattach_name = codes "team/net1";
        interface_name = codes "net1";
        interface_type = codes "macvlan";
        ips = codes "10.0.0.1" ∷ [];
      }
      ∷ [];
}

abbrev pub deny_policy : Policy
deny_policy = record {
  namespace = codes "team";
  name = codes "deny";
  annotations = (codes "k8s.v1.cni.cncf.io/policy-for", codes "net1") ∷ [];
  pod_selector = record { raw = [] };
  policy_types = codes "Ingress" ∷ [];
  ingress = none;
  egress = none;
}

abbrev pub no_options : CommonRuleConfig
no_options = record {
  accept_icmpv6 = false;
  accept_icmp = false;
  allow_src_prefix = [];
  allow_dst_prefix = [];
}
