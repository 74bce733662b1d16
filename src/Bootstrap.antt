-- ===== src/Bootstrap.antt =====
-- The state of a render: bootstrapNetfilterChains and bootstrapNetfilterRules of
-- pkg/server/netfilterrules.go.
use multi_networkpolicy_nfta.Nft.{
  inet, Table, Hook, hook_input, hook_output, hook_prerouting, ChainType, filter_type, nat_type,
  Priority, filter_priority, nat_dest_priority, Chain, ifname_key, NftSet, SetElement, MetaKey,
  key_iifname, key_oifname, VerdictKind, jump, return, Expr, meta, lookup, verdict, counter,
  insert_rule, Transcript, Libraries, NftState, Conn, Render, gets,
}
use multi_networkpolicy_nfta.Chains.{
  filter_table_name, nat_table_name, ingress_chain_name, egress_chain_name, common, add_table,
  add_chain,
}
use multi_networkpolicy_nfta.Sets.{update_set}
use multi_networkpolicy_nfta.Rules.{update_rule}
use multi_networkpolicy_nfta.Fields.{ifname, new_rule, jump_exprs, new_set}
use multi_networkpolicy_nfta.Legacy.{cleanup_legacy_tables}
use multi_networkpolicy_nfta.Cluster.{InterfaceInfo, PodInfo}
use multi_networkpolicy_nfta.Base.{
  if◌then◌else◌, is_empty, Bytes, codes, le_bytes, decimal, no_interfaces, Result, ok, err, ◌>>=◌,
  ◌>>◌, pure, done, sort_by, ℕ, suc, true, false, none, some, List, [], ◌∷◌, ◌++◌,
}

module _ ⦃lib : Libraries⦄ where
  abbrev base_chain : Bytes → Table → Hook → Priority → ChainType → Chain
  base_chain name table hook priority kind = record {
    name = name;
    table = table;
    base = some (record { hooknum = hook; priority = priority; kind = kind });
  }

  abbrev jump_chain : Bytes → Table → Chain
  jump_chain name table = record { name = name; table = table; base = none }

  abbrev update_state : (NftState → NftState) → Render (Unit {0})
  update_state f s = (ok tt, f s)

  bootstrap_netfilter_chains : Render (Unit {0})
  bootstrap_netfilter_chains = do
    filter ← gets (λ s. s.filter)
    nat ← gets (λ s. s.nat)
    input ← add_chain (base_chain (codes "input") filter hook_input filter_priority filter_type)
    update_state (λ s. record s { input = input })
    output ← add_chain (base_chain (codes "output") filter hook_output filter_priority filter_type)
    update_state (λ s. record s { output = output })
    prerouting ←
        add_chain (base_chain (codes "prerouting") nat hook_prerouting nat_dest_priority nat_type)
    update_state (λ s. record s { prerouting = prerouting })
    ingress ← add_chain (jump_chain ingress_chain_name filter)
    update_state (λ s. record s { ingress_chain = ingress })
    egress ← add_chain (jump_chain egress_chain_name filter)
    update_state (λ s. record s { egress_chain = egress })
    common_ingress ← add_chain (jump_chain (ingress_chain_name ++ (codes "-" ++ common)) filter)
    update_state (λ s. record s { common_ingress_chain = common_ingress })
    common_egress ← add_chain (jump_chain (egress_chain_name ++ (codes "-" ++ common)) filter)
    update_state (λ s. record s { common_egress_chain = common_egress })

  interface_elements : ℕ → List InterfaceInfo → List SetElement
  interface_elements index [] = []
  interface_elements index (intf ∷ rest) =
      record {
        key = ifname intf.interface_name;
        interval_end = false;
        comment =
            codes "pod interface [" ++ (decimal index ++ (codes "]: " ++ intf.interface_name));
      }
      ∷ interface_elements (suc index) rest

  abbrev interface_set : Table → Bytes → NftSet
  interface_set table comment =
      record (new_set table (codes "pod_interfaces") ifname_key true false false) {
        comment = comment;
      }

  -- the packets of an interface in the set, with a verdict
  abbrev interface_exprs : MetaKey → NftSet → VerdictKind → Bytes → List Expr
  interface_exprs key set kind target =
      meta key false 1 ∷ lookup set.name set.id 1 ∷ counter 0 0 ∷ verdict kind target ∷ []

  -- the part after the chains are there, over the sorted interfaces
  install_entry_rules : List InterfaceInfo → Render (Unit {0})
  unfolding interface_elements
  install_entry_rules interfaces = do
    s ← gets (λ s. s)
    let elements = interface_elements 0 interfaces
    filter_set ← update_set (interface_set s.filter (codes "Pod interfaces")) elements
    update_rule
        (new_rule s.filter s.input (codes "input-interface-filter")
          (interface_exprs key_iifname filter_set jump s.ingress_chain.name))
        insert_rule false
    update_rule
        (new_rule s.filter s.output (codes "output-interface-filter")
          (interface_exprs key_oifname filter_set jump s.egress_chain.name))
        insert_rule false
    nat_set ← update_set (interface_set s.nat (codes "Pod interfaces NAT")) elements
    update_rule
        (new_rule s.nat s.prerouting (codes "nat-filter-rule")
          (interface_exprs key_iifname nat_set return []))
        insert_rule false
    update_rule
        (new_rule s.filter s.ingress_chain (codes "common-ingress-chain")
          (jump_exprs s.common_ingress_chain.name))
        insert_rule false
    update_rule
        (new_rule s.filter s.egress_chain (codes "common-egress-chain")
          (jump_exprs s.common_egress_chain.name))
        insert_rule false
    done

  -- a nil chain, which nothing reads before the bootstrap has set it
  abbrev no_chain : Table → Chain
  no_chain table = jump_chain [] table

  abbrev initial_state : Transcript → Table → Table → NftState
  initial_state sent filter nat = record {
    sent = sent;
    filter = filter;
    nat = nat;
    input = no_chain filter;
    output = no_chain filter;
    prerouting = no_chain nat;
    ingress_chain = no_chain filter;
    egress_chain = no_chain filter;
    common_ingress_chain = no_chain filter;
    common_egress_chain = no_chain filter;
    rules = [];
    sets = [];
    chains = [];
  }

  abbrev sort_interfaces : List InterfaceInfo → List InterfaceInfo
  sort_interfaces = sort_by (λ a b. le_bytes a.interface_name b.interface_name)

  bootstrap_tables : Conn (Table × Table)
  unfolding add_table
  bootstrap_tables = do
    cleanup_legacy_tables
    filter ← add_table (record { name = filter_table_name; family = inet })
    nat ← add_table (record { name = nat_table_name; family = inet })
    pure (filter, nat)

  abbrev finish_bootstrap :
      PodInfo → Result (Table × Table) → Transcript → Result (PodInfo × NftState) × Transcript
  finish_bootstrap pod_info (err e) t = (err e, t)
  finish_bootstrap pod_info (ok (filter, nat)) t =
      let sorted = sort_interfaces pod_info.interfaces in
      let (r, s) =
        (bootstrap_netfilter_chains >> install_entry_rules sorted) (initial_state t filter nat) in
      elim r [
        | ok _ ↦ (ok (record pod_info { interfaces = sorted }, s), s.sent)
        | err e ↦ (err e, s.sent)
      ]

  -- The state, beside the pod information with its interfaces sorted in place.
  unfoldable pub bootstrap_netfilter_rules : PodInfo → Conn (PodInfo × NftState)
  unfolding bootstrap_tables bootstrap_netfilter_chains install_entry_rules
  bootstrap_netfilter_rules pod_info t =
      if is_empty pod_info.interfaces
      then (err no_interfaces, t)
      else (let (r, t') = bootstrap_tables t in finish_bootstrap pod_info r t')
