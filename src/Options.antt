-- ===== src/Options.antt =====
-- The command line: AddFlags, parseIPPrefixText, Validate, BuildReconcilerConfig and NewOptions of
-- pkg/server/options.go.
pub mod Checked
pub mod Trimmed
mod Samples
use mathlib.Core.List.{map, reverse}
use multi_networkpolicy_nfta.Nft.{Libraries}
use multi_networkpolicy_nfta.Cluster.{CommonRuleConfig}
use multi_networkpolicy_nfta.Cri.{cri_kind}
use multi_networkpolicy_nfta.Base.{
  length, zero, suc, ◌-◌, leb, ◌==◌, if◌then◌else◌, is_empty, Bytes, codes, has_prefix, split_byte,
  Err, bad_prefix, empty_endpoint, relative_endpoint, url_endpoint, Result, ok, err, ℤ, pos, ℕ,
  Bool, false, not, ◌&&◌, ◌||◌, Option, none, some, List, [], ◌∷◌, ◌++◌,
}

pub record Options : Type 0 where
  pub kubeconfig : Bytes
  pub master : Bytes
  pub hostname_override : Bytes
  pub host_prefix : Bytes
  pub container_runtime : Bytes
  pub container_runtime_endpoint : Bytes
  pub network_plugins : List Bytes
  pub sync_period : ℤ
  pub accept_icmpv6 : Bool
  pub accept_icmp : Bool
  pub allow_src_prefix_text : Bytes
  pub allow_dst_prefix_text : Bytes
  pub allow_src_prefix : List Bytes
  pub allow_dst_prefix : List Bytes

pub record ReconcilerConfig : Type 0 where
  pub kubeconfig : Bytes
  pub master : Bytes
  pub node_name : Bytes
  pub host_prefix : Bytes
  pub container_runtime_endpoint : Bytes
  pub network_plugins : List Bytes
  pub sync_period_seconds : ℤ
  pub common_rule_config : CommonRuleConfig

abbrev default_sync_period : ℤ
default_sync_period = pos 30

unfoldable pub new_options : Options
new_options = record {
  kubeconfig = [];
  master = [];
  hostname_override = [];
  host_prefix = [];
  container_runtime = cri_kind;
  container_runtime_endpoint = [];
  network_plugins = [];
  sync_period = pos 0;
  accept_icmpv6 = false;
  accept_icmp = false;
  allow_src_prefix_text = [];
  allow_dst_prefix_text = [];
  allow_src_prefix = [];
  allow_dst_prefix = [];
}

pub data FlagValue : Type 0 where
  text_flag : Bytes → FlagValue
  texts_flag : List Bytes → FlagValue
  number_flag : ℤ → FlagValue
  switch_flag : Bool → FlagValue

-- The flags that AddFlags registers, with their defaults, in order.
pub flag_defaults : Options → List (Bytes × FlagValue)
flag_defaults o =
    (codes "container-runtime", text_flag o.container_runtime)
    ∷ (codes "container-runtime-endpoint", text_flag o.container_runtime_endpoint)
    ∷ (codes "kubeconfig", text_flag o.kubeconfig)
    ∷ (codes "master", text_flag o.master)
    ∷ (codes "hostname-override", text_flag o.hostname_override)
    ∷ (codes "host-prefix", text_flag o.host_prefix)
    ∷ (codes "network-plugins", texts_flag (codes "macvlan" ∷ []))
    ∷ (codes "pod-iptables", text_flag [])
    ∷ (codes "sync-period", number_flag default_sync_period)
    ∷ (codes "accept-icmp", switch_flag false)
    ∷ (codes "accept-icmpv6", switch_flag false)
    ∷ (codes "allow-src-prefix", text_flag [])
    ∷ (codes "allow-dst-prefix", text_flag [])
    ∷ []

-- The options as AddFlags leaves them: pflag stores the default of a flag in its variable. That of
-- `pod-iptables` is a local one, which nothing reads.
unfoldable pub add_flags : Options → Options
add_flags o = record o {
  network_plugins = codes "macvlan" ∷ [];
  sync_period = default_sync_period;
  accept_icmp = false;
  accept_icmpv6 = false;
  allow_src_prefix_text = [];
  allow_dst_prefix_text = [];
}

-- unicode.IsSpace, by the bytes of UTF-8
abbrev pub spaces : List Bytes
spaces =
    (9 ∷ [])
    ∷ (10 ∷ [])
    ∷ (11 ∷ [])
    ∷ (12 ∷ [])
    ∷ (13 ∷ [])
    ∷ (32 ∷ [])
    ∷ (0xc2 ∷ 0x85 ∷ [])
    ∷ (0xc2 ∷ 0xa0 ∷ [])
    ∷ (0xe1 ∷ 0x9a ∷ 0x80 ∷ [])
    ∷ (0xe2 ∷ 0x80 ∷ 0x80 ∷ [])
    ∷ (0xe2 ∷ 0x80 ∷ 0x81 ∷ [])
    ∷ (0xe2 ∷ 0x80 ∷ 0x82 ∷ [])
    ∷ (0xe2 ∷ 0x80 ∷ 0x83 ∷ [])
    ∷ (0xe2 ∷ 0x80 ∷ 0x84 ∷ [])
    ∷ (0xe2 ∷ 0x80 ∷ 0x85 ∷ [])
    ∷ (0xe2 ∷ 0x80 ∷ 0x86 ∷ [])
    ∷ (0xe2 ∷ 0x80 ∷ 0x87 ∷ [])
    ∷ (0xe2 ∷ 0x80 ∷ 0x88 ∷ [])
    ∷ (0xe2 ∷ 0x80 ∷ 0x89 ∷ [])
    ∷ (0xe2 ∷ 0x80 ∷ 0x8a ∷ [])
    ∷ (0xe2 ∷ 0x80 ∷ 0xa8 ∷ [])
    ∷ (0xe2 ∷ 0x80 ∷ 0xa9 ∷ [])
    ∷ (0xe2 ∷ 0x80 ∷ 0xaf ∷ [])
    ∷ (0xe2 ∷ 0x81 ∷ 0x9f ∷ [])
    ∷ (0xe3 ∷ 0x80 ∷ 0x80 ∷ [])
    ∷ []

-- the length of the first of some texts with which a text begins, 0 where it begins with none
unfoldable pub leading : List Bytes → Bytes → ℕ
leading [] s = 0
leading (p ∷ ps) s = if has_prefix s p then length p else leading ps s

-- the text without the texts in front, with `skip` bytes still to pass
unfoldable pub trim_from : List Bytes → ℕ → Bytes → Bytes
unfolding leading
trim_from ps skip [] = []
trim_from ps (suc skip) (c ∷ s) = trim_from ps skip s
trim_from ps zero (c ∷ s) =
    let n = leading ps (c ∷ s) in
    let rest = trim_from ps (n - 1) s in if n == 0 then c ∷ s else rest

-- strings.TrimSpace
unfoldable pub trim_space : Bytes → Bytes
unfolding trim_from
trim_space s = reverse (trim_from (map reverse spaces) 0 (reverse (trim_from spaces 0 s)))

-- strings.Contains
pub contains : Bytes → Bytes → Bool
contains [] sub = has_prefix [] sub
contains (c ∷ s) sub = has_prefix (c ∷ s) sub || contains s sub

-- filepath.IsAbs
abbrev is_abs : Bytes → Bool
is_abs s = has_prefix s (codes "/")

module _ ⦃lib : Libraries⦄ where
  -- the loop: the list as it has grown, and whether a text was refused
  parse_prefixes : List Bytes → List Bytes → Result (List Bytes)
  unfolding trim_space
  parse_prefixes [] acc = ok acc
  parse_prefixes (raw ∷ rest) acc =
      let addr = trim_space raw in
      let later = parse_prefixes rest (acc ++ (addr ∷ [])) in
      if lib.is_cidr addr then later else err bad_prefix

  -- the new list; an empty text leaves the old one
  unfoldable pub parse_ip_prefix_text : Bytes → List Bytes → Result (List Bytes)
  unfolding parse_prefixes
  parse_ip_prefix_text text prefix_list =
      if is_empty text then ok prefix_list else parse_prefixes (split_byte b',' text) []

  check_endpoint : Bytes → Option Err
  unfolding contains
  check_endpoint endpoint =
      if is_empty endpoint
      then some empty_endpoint
      else if contains endpoint (codes "://")
      then some url_endpoint
      else if not (is_abs endpoint)
      then some relative_endpoint
      else none

  abbrev with_prefixes : Options → List Bytes → List Bytes → Result Options
  with_prefixes o src dst =
      let endpoint = trim_space o.container_runtime_endpoint in
      elim (check_endpoint endpoint) [
        | some e ↦ err e
        | none ↦ ok (record o {
          allow_src_prefix = src;
          allow_dst_prefix = dst;
          container_runtime_endpoint = endpoint;
        })
      ]

  -- The options as a successful call leaves them.
  unfoldable pub validate : Options → Result Options
  unfolding check_endpoint trim_space
  validate o = elim (parse_ip_prefix_text o.allow_src_prefix_text o.allow_src_prefix) [
    | err e ↦ err e
    | ok src ↦ elim (parse_ip_prefix_text o.allow_dst_prefix_text o.allow_dst_prefix) [
      | err e ↦ err e
      | ok dst ↦ with_prefixes o src dst
    ]
  ]

  abbrev config_of : Options → Bytes → ReconcilerConfig
  config_of o hostname = record {
    kubeconfig = o.kubeconfig;
    master = o.master;
    node_name = hostname;
    host_prefix = o.host_prefix;
    container_runtime_endpoint = o.container_runtime_endpoint;
    network_plugins = o.network_plugins;
    sync_period_seconds = o.sync_period;
    common_rule_config = record {
      accept_icmpv6 = o.accept_icmpv6;
      accept_icmp = o.accept_icmp;
      allow_src_prefix = o.allow_src_prefix;
      allow_dst_prefix = o.allow_dst_prefix;
    };
  }

  -- `get_hostname` is nodeutil.GetHostname of k8s.io/component-helpers.
  unfoldable pub build_reconciler_config :
      (Bytes → Result Bytes) → Options → Result ReconcilerConfig
  build_reconciler_config get_hostname options = elim (validate options) [
    | err e ↦ err e
    | ok o ↦ elim (get_hostname o.hostname_override) [
      | err e ↦ err e
      | ok hostname ↦ ok (config_of o hostname)
    ]
  ]
