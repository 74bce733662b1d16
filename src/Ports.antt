-- ===== src/Ports.antt =====
-- Port rules: validatePortSpec, getInetSet, applyProtoPortsRules and applyPolicyPortsRules of
-- pkg/server/netfilterrules.go.
pub mod Growth
pub mod Interval
pub mod Union
mod Samples
use multi_networkpolicy_nfta.Nft.{
  Chain, inet_service_key, NftSet, SetElement, key_l4proto, cmp_eq, transport_header, Expr, meta,
  lookup, cmp, payload, counter, add_rule, Libraries, Render,
}
use multi_networkpolicy_nfta.Fields.{
  port_rule_mark, complement32, protocol_tcp, protocol_udp, protocol_sctp, get_protocol_info,
  get_set_name, concat, new_rule, jump_exprs, set_mark_exprs, plain_element, end_element,
}
use multi_networkpolicy_nfta.Names.{nft_name_with_suffix}
use multi_networkpolicy_nfta.Rules.{update_rule}
use multi_networkpolicy_nfta.Sets.{update_set}
use multi_networkpolicy_nfta.Chains.{add_chain}
use multi_networkpolicy_nfta.Cluster.{IntOrString, int_val, str_val, PolicyPort}
use multi_networkpolicy_nfta.Base.{
  if◌then◌else◌, is_empty, Bytes, codes, eq_bytes, decimal, named_port, port_out_of_range, Result,
  ok, err, ◌>>=◌, ◌>>◌, lift, done, when, ℤ, pos, lt_int, to_nat, atoi, ℕ, ◌+◌, ◌%◌, Bool, true,
  false, not, ◌&&◌, ◌||◌, Option, none, some, List, [], ◌∷◌, ◌++◌,
}

abbrev pub max_uint16 : ℕ
max_uint16 = 65535

-- `portNum < 1 || portNum > math.MaxUint16`
abbrev pub out_of_range : ℤ → Bool
out_of_range n = lt_int n (pos 1) || lt_int (pos max_uint16) n

-- the number of a port, from either form of the field
unfoldable pub numeric_port : IntOrString → Result ℤ
numeric_port (int_val n) = ok n
numeric_port (str_val s) = elim (atoi s) [
  | none ↦ err named_port
  | some n ↦ if out_of_range n then err named_port else ok n
]

-- the number of the last port, `none` where `EndPort` is absent or not above the port
abbrev end_above : Option ℤ → ℤ → Option ℤ
end_above none n = none
end_above (some e) n = if lt_int n e then some e else none

module _ ⦃lib : Libraries⦄ where
  -- the half-open interval from the first port to one past the last, which wraps past 65535
  abbrev pub port_interval : ℕ → ℕ → List SetElement
  port_interval first last =
      plain_element (lib.big_uint16 first) ∷ end_element (lib.big_uint16 ((last + 1) % 65536)) ∷ []

  abbrev range_elements : ℕ → Option ℤ → Result (List SetElement)
  range_elements first none = ok (port_interval first first)
  range_elements first (some e) =
      if out_of_range e then err port_out_of_range else ok (port_interval first (to_nat e))

  abbrev checked_elements : ℤ → Option ℤ → Result (List SetElement)
  checked_elements n end_port =
      if out_of_range n
      then err port_out_of_range
      else range_elements (to_nat n) (end_above end_port n)

  unfoldable pub validate_port_spec : PolicyPort → Result (List SetElement)
  unfolding numeric_port
  validate_port_spec p = elim p.port [
    | none ↦ ok []
    | some spec ↦ elim (numeric_port spec) [ err e ↦ err e | ok n ↦ checked_elements n p.end_port ]
  ]

  unfoldable pub get_inet_set : Chain → Bytes → Bytes → NftSet
  get_inet_set chain ports_name suffix =
      let set_name = nft_name_with_suffix (get_set_name ports_name) (codes "_") suffix in
      record {
        table = chain.table;
        name = set_name;
        id = 0;
        key_type = inet_service_key;
        comment = set_name;
        counter = true;
        constant = true;
        interval = true;
        anonymous = false;
      }

  unfoldable pub proto_ports_exprs : NftSet → Bytes → List Expr
  proto_ports_exprs set unix_proto =
      (meta key_l4proto false 1
        ∷ cmp cmp_eq 1 unix_proto
        ∷ payload transport_header 1 2 2
        ∷ lookup set.name set.id 1
        ∷ counter 0 0
        ∷ [])
      ++ set_mark_exprs (complement32 port_rule_mark) port_rule_mark

  unfoldable pub apply_proto_ports_rules :
      Bytes → Chain → Bytes → NftSet → Bytes → Render (Unit {0})
  unfolding proto_ports_exprs
  apply_proto_ports_rules chain_name chain policy_name set unix_proto = do
    update_rule
        (new_rule chain.table chain
          (concat (
            codes "policy:"
            ∷ policy_name
            ∷ codes ", name:"
            ∷ chain_name
            ∷ codes ", set:"
            ∷ set.name
            ∷ []))
          (proto_ports_exprs set unix_proto))
        add_rule false
    done

-- the elements for TCP, UDP and SCTP
pub record PortSets : Type 0 where
  pub tcp : List SetElement
  pub udp : List SetElement
  pub sctp : List SetElement

-- a port with a protocol and no number stands for all ports
abbrev pub all_ports_default : PolicyPort → PolicyPort
all_ports_default p = elim p.port [
  | some spec ↦ p
  | none ↦ elim p.protocol [
    | none ↦ p
    | some proto ↦ record p { port = some (int_val (pos 1)); end_port = some (pos max_uint16) }
  ]
]

abbrev pub add_elements : Option Bytes → List SetElement → PortSets → PortSets
add_elements none els sets = record sets { tcp = sets.tcp ++ els }
add_elements (some protocol) els sets =
    if eq_bytes protocol protocol_udp
    then record sets { udp = sets.udp ++ els }
    else if eq_bytes protocol protocol_sctp
    then record sets { sctp = sets.sctp ++ els }
    else record sets { tcp = sets.tcp ++ els }

module _ ⦃lib : Libraries⦄ where
  -- the loop over `ports`
  unfoldable pub collect_ports : List PolicyPort → PortSets → Result PortSets
  unfolding validate_port_spec
  collect_ports [] sets = ok sets
  collect_ports (p ∷ ps) sets = elim (validate_port_spec (all_ports_default p)) [
    | err e ↦ err e
    | ok els ↦ collect_ports ps (add_elements p.protocol els sets)
  ]

  -- one of the three blocks that follow: the set and the rule of one protocol
  unfoldable pub apply_protocol :
      Bytes → List SetElement → Bytes → Chain → Chain → Bytes → Render (Unit {0})
  unfolding get_inet_set apply_proto_ports_rules
  apply_protocol protocol elements ports_name chain port_chain policy_name =
      when (not (is_empty elements)) (do
        let (suffix, unix_flag) = get_protocol_info protocol
        set ← update_set (get_inet_set chain ports_name suffix) elements
        apply_proto_ports_rules ports_name port_chain policy_name set unix_flag)

  unfoldable pub accept_all_exprs : ℕ → List Expr
  accept_all_exprs mark = counter 0 0 ∷ set_mark_exprs (complement32 mark) mark

  unfoldable pub apply_policy_ports_rules :
      Bytes → Chain → Bytes → List PolicyPort → ℕ → Render (Unit {0})
  unfolding collect_ports apply_protocol accept_all_exprs
  apply_policy_ports_rules chain_name chain policy_name ports port_index = do
    let ports_name =
        nft_name_with_suffix chain_name (codes "-") (codes "ports-" ++ decimal port_index)
    port_chain ← add_chain (record { name = ports_name; table = chain.table; base = none })
    update_rule
        (new_rule chain.table chain
          (concat (
            codes "policy:"
            ∷ policy_name
            ∷ codes ", name:"
            ∷ chain_name
            ∷ codes ", jump:"
            ∷ port_chain.name
            ∷ []))
          (jump_exprs port_chain.name))
        add_rule false
    sets ← lift (collect_ports ports (record { tcp = []; udp = []; sctp = [] }))
    apply_protocol protocol_tcp sets.tcp ports_name chain port_chain policy_name
    apply_protocol protocol_udp sets.udp ports_name chain port_chain policy_name
    apply_protocol protocol_sctp sets.sctp ports_name chain port_chain policy_name
    when (is_empty ports || (is_empty sets.tcp && is_empty sets.udp && is_empty sets.sctp)) (do
      update_rule
          (new_rule chain.table port_chain
            (concat (
              codes "policy:"
              ∷ policy_name
              ∷ codes ", name:"
              ∷ ports_name
              ∷ codes ", no ports skipped accept all"
              ∷ []))
            (accept_all_exprs port_rule_mark))
          add_rule false
      done)
