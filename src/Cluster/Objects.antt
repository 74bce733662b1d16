-- ===== src/Cluster/Objects.antt =====
-- MultiNetworkPolicy, Pod and NetworkStatus with the fields that are read; InterfaceInfo, PodInfo,
-- CommonRuleConfig and PolicyDeps of pkg/controllers.
use multi_networkpolicy_nfta.Base.{
  if◌then◌else◌, any, Bytes, codes, eq_bytes, Result, ℤ, ℕ, Bool, true, false, not, Option, List,
}

abbrev pub Labels : Type 0
Labels = List (Bytes × Bytes)

-- metav1.LabelSelector, and the labels.Selector made from one: only library code looks inside.
pub record LabelSelector : Type 0 where
  pub raw : Bytes

pub record Selector : Type 0 where
  pub raw : Bytes

pub record IpBlock : Type 0 where
  pub cidr : Bytes
  pub except : List Bytes

pub record Peer : Type 0 where
  pub ip_block : Option IpBlock
  pub pod_selector : Option LabelSelector
  pub namespace_selector : Option LabelSelector

-- intstr.IntOrString
pub data IntOrString : Type 0 where
  int_val : ℤ → IntOrString
  str_val : Bytes → IntOrString

pub record PolicyPort : Type 0 where
  pub protocol : Option Bytes
  pub port : Option IntOrString
  pub end_port : Option ℤ

-- an ingress rule with its `From`, or an egress rule with its `To`
pub record PolicyRule : Type 0 where
  pub ports : List PolicyPort
  pub peers : List Peer

-- `none` is a nil slice
pub record Policy : Type 0 where
  pub namespace : Bytes
  pub name : Bytes
  pub annotations : Labels
  pub pod_selector : LabelSelector
  pub policy_types : List Bytes
  pub ingress : Option (List PolicyRule)
  pub egress : Option (List PolicyRule)

pub record ContainerStatus : Type 0 where
  pub name : Bytes
  pub container_id : Bytes
  pub running : Bool

pub record Pod : Type 0 where
  pub namespace : Bytes
  pub name : Bytes
  pub labels : Labels
  pub annotations : Option Labels
  pub phase : Bytes
  pub host_network : Bool
  pub node_name : Bytes
  pub container_statuses : List ContainerStatus

pub record NetworkStatus : Type 0 where
  pub name : Bytes
  pub interface : Bytes
  pub default : Bool
  pub ips : List Bytes

pub record InterfaceInfo : Type 0 where
  pub netattach_name : Bytes
  pub interface_name : Bytes
  pub interface_type : Bytes
  pub ips : List Bytes

pub record PodInfo : Type 0 where
  pub name : Bytes
  pub namespace : Bytes
  pub net_ns_path : Bytes
  pub network_status : List NetworkStatus
  pub node_name : Bytes
  pub interfaces : List InterfaceInfo

pub record CommonRuleConfig : Type 0 where
  pub accept_icmpv6 : Bool
  pub accept_icmp : Bool
  pub allow_src_prefix : List Bytes
  pub allow_dst_prefix : List Bytes

-- `PolicyDeps`, with the label selectors of apimachinery and the order in which Go visits the keys
-- of a map.
pub record PolicyDeps : Type 0 where
  pub list_pods : Selector → Result (List Pod)
  pub get_namespace_labels : Bytes → Result Labels
  pub get_pod_info : Pod → Result PodInfo
  pub as_selector : LabelSelector → Result Selector
  pub everything : Selector
  pub selector_matches : Selector → Labels → Bool
  pub selector_size : LabelSelector → ℕ
  pub selector_text : LabelSelector → Bytes
  pub map_order : List Bytes → List Bytes

-- (*InterfaceInfo).CheckPolicyNetwork
unfoldable pub on_policy_network : InterfaceInfo → List Bytes → Bool
on_policy_network info policy_networks = any (λ n. eq_bytes n info.netattach_name) policy_networks

-- (*PodInfo).CheckPolicyNetwork
unfoldable pub check_policy_network : PodInfo → List Bytes → Bool
unfolding on_policy_network
check_policy_network info policy_networks =
    any (λ intf. on_policy_network intf policy_networks) info.interfaces

unfoldable pub is_multi_networkpolicy_target : Pod → Bool
is_multi_networkpolicy_target pod =
    if not (eq_bytes pod.phase (codes "Running"))
    then false
    else if pod.host_network
    then false
    else true
