-- ===== src/Options/Samples.antt =====
-- Options with white space round the endpoint.
use multi_networkpolicy_nfta.Options.{Options, contains, parse_ip_prefix_text, validate}
use multi_networkpolicy_nfta.Options.Trimmed.{Trimmed}
use multi_networkpolicy_nfta.Options.Checked.{validate-endpoint, validate-prefixes}
use multi_networkpolicy_nfta.Nft.Fake.{fresh}
use multi_networkpolicy_nfta.Cri.{cri_kind}
use multi_networkpolicy_nfta.Base.{
  All, codes, has_prefix, ok, err, pos, ◌≡◌, refl, true, false, [], ◌∷◌,
}

abbrev given : Options
given = record {
  kubeconfig = [];
  master = [];
  hostname_override = codes "node1";
  host_prefix = codes "/host";
  container_runtime = cri_kind;
  container_runtime_endpoint = codes " /run/crio.sock ";
  network_plugins = codes "macvlan" ∷ [];
  sync_period = pos 30;
  accept_icmpv6 = true;
  accept_icmp = false;
  allow_src_prefix_text = codes "10.0.0.0/8, 10.1.0.0/16";
  allow_dst_prefix_text = codes "10.0.0.0/8";
  allow_src_prefix = [];
  allow_dst_prefix = [];
}

abbrev checked : Options
checked = elim (validate given) [ ok o ↦ o | err e ↦ given ]

validate-endpoint_example :
    (has_prefix checked.container_runtime_endpoint (codes "/") ≡ true)
    × (contains checked.container_runtime_endpoint (codes "://") ≡ false)
    × Trimmed given.container_runtime_endpoint checked.container_runtime_endpoint
unfolding validate parse_ip_prefix_text
validate-endpoint_example = validate-endpoint given checked refl

validate-prefixes_example :
    All (λ p. fresh.is_cidr p ≡ true) checked.allow_src_prefix
    × All (λ p. fresh.is_cidr p ≡ true) checked.allow_dst_prefix
unfolding validate parse_ip_prefix_text
validate-prefixes_example = validate-prefixes given checked refl refl refl
