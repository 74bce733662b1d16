-- ===== src/Fields.antt =====
-- Small parts of rules: ifname, userDataComment, getMetaKeyInterface, getProtocolInfo,
-- getAddressSuffix, getSetName and the namespaced names of pkg/server, with the constants of
-- golang.org/x/sys/unix and of pkg/server/doc.go that go into expressions.
pub mod Interfaces
mod Samples
use multi_networkpolicy_nfta.Nft.{
  Table, Chain, KeyType, NftSet, SetElement, MetaKey, key_iifname, key_oifname, key_nfproto,
  key_mark, jump, return, cmp_eq, Expr, meta, verdict, cmp, bitwise, counter, Rule, Libraries,
}
use multi_networkpolicy_nfta.Chains.{is_ingress_chain}
use multi_networkpolicy_nfta.Cluster.{Policy}
use multi_networkpolicy_nfta.Base.{
  ltb, if◌then◌else◌, length, take, replicate, Bytes, codes, eq_bytes, replace_byte, ℕ, ◌-◌, ◌^◌,
  Bool, true, false, List, [], ◌∷◌, ◌++◌,
}

abbrev pub ipproto_icmp : ℕ
ipproto_icmp = 1

abbrev pub ipproto_tcp : ℕ
ipproto_tcp = 6

abbrev pub ipproto_udp : ℕ
ipproto_udp = 17

abbrev pub ipproto_icmpv6 : ℕ
ipproto_icmpv6 = 58

abbrev pub ipproto_sctp : ℕ
ipproto_sctp = 132

abbrev pub nfproto_ipv4 : ℕ
nfproto_ipv4 = 2

abbrev pub nfproto_ipv6 : ℕ
nfproto_ipv6 = 10

abbrev pub ipv4_len : ℕ
ipv4_len = 4

abbrev pub ipv6_len : ℕ
ipv6_len = 16

abbrev pub ipv4_offset : ℕ
ipv4_offset = 12

abbrev pub ipv6_offset : ℕ
ipv6_offset = 8

abbrev pub proto_ipv4 : Bytes
proto_ipv4 = codes "ipv4"

abbrev pub proto_ipv6 : Bytes
proto_ipv6 = codes "ipv6"

abbrev pub peer_rule_mark : ℕ
peer_rule_mark = 0x20000

abbrev pub port_rule_mark : ℕ
port_rule_mark = 0x10000

abbrev pub match_rule_mark : ℕ
match_rule_mark = 0x30000

abbrev pub zero_rule_mark : ℕ
zero_rule_mark = 0

-- `^m` of a uint32
abbrev pub complement32 : ℕ → ℕ
complement32 m = 2 ^ 32 - 1 - m

-- bits of expr.CtState: established 2, related 4
abbrev pub ct_established_related : ℕ
ct_established_related = 6

-- `make([]byte, 16)` and a copy of the name with its final zero byte
unfoldable pub ifname : Bytes → Bytes
ifname n = let name = take 16 (n ++ (0 ∷ [])) in name ++ replicate (16 - length name) 0

abbrev user_data_comment_max_len : ℕ
user_data_comment_max_len = 254

abbrev pub get_meta_key_interface : Bytes → MetaKey
get_meta_key_interface chain_name = if is_ingress_chain chain_name then key_iifname else key_oifname

abbrev pub protocol_tcp : Bytes
protocol_tcp = codes "TCP"

abbrev pub protocol_udp : Bytes
protocol_udp = codes "UDP"

abbrev pub protocol_sctp : Bytes
protocol_sctp = codes "SCTP"

abbrev pub get_protocol_info : Bytes → Bytes × Bytes
get_protocol_info protocol =
    if eq_bytes protocol protocol_udp
    then (codes "udp", ipproto_udp ∷ [])
    else if eq_bytes protocol protocol_sctp
    then (codes "sctp", ipproto_sctp ∷ [])
    else (codes "tcp", ipproto_tcp ∷ [])

abbrev pub get_address_suffix : Bytes → Bytes
get_address_suffix chain_name =
    if is_ingress_chain chain_name then codes "saddrs" else codes "daddrs"

abbrev pub get_set_name : Bytes → Bytes
get_set_name = replace_byte b'-' (b'_' ∷ [])

abbrev pub policy_namespaced_name : Policy → Bytes
policy_namespaced_name p = p.namespace ++ (codes "/" ++ p.name)

abbrev pub policy_rule_namespaced_name : Policy → Bytes
policy_rule_namespaced_name p = p.namespace ++ (codes "-" ++ p.name)

-- strings joined as fmt.Sprintf puts them
abbrev pub concat : List Bytes → Bytes
concat [] = []
concat (s ∷ rest) = s ++ concat rest

module _ ⦃lib : Libraries⦄ where
  unfoldable pub user_data_comment : Bytes → Bytes
  user_data_comment comment = lib.append_comment (
      if ltb user_data_comment_max_len (length comment)
      then take user_data_comment_max_len comment
      else comment)

  -- a rule that is not in the kernel yet
  abbrev pub new_rule : Table → Chain → Bytes → List Expr → Rule
  new_rule table chain comment exprs = record {
    table = table;
    chain = chain;
    user_data = user_data_comment comment;
    exprs = exprs;
    handle = 0;
  }

-- a jump to a chain, counted
abbrev pub jump_exprs : Bytes → List Expr
jump_exprs target = counter 0 0 ∷ verdict jump target ∷ []

-- the packets of one network protocol
abbrev pub nfproto_exprs : ℕ → List Expr
nfproto_exprs protocol = meta key_nfproto false 1 ∷ cmp cmp_eq 1 (protocol ∷ []) ∷ []

module _ ⦃lib : Libraries⦄ where
  -- the mark is read, cleared under `mask`, set to `xor` and written back
  abbrev pub set_mark_exprs : ℕ → ℕ → List Expr
  set_mark_exprs mask xor =
      meta key_mark false 1
      ∷ bitwise 1 1 4 (lib.native_uint32 mask) (lib.native_uint32 xor)
      ∷ meta key_mark true 1
      ∷ []

  -- the packets of which both mark bits are set return
  abbrev pub check_mark_exprs : List Expr
  check_mark_exprs =
      meta key_mark false 1
      ∷ bitwise 1 1 4 (lib.native_uint32 match_rule_mark) (lib.native_uint32 zero_rule_mark)
      ∷ cmp cmp_eq 1 (lib.native_uint32 match_rule_mark)
      ∷ counter 0 0
      ∷ verdict return []
      ∷ []

abbrev pub plain_element : Bytes → SetElement
plain_element key = record { key = key; interval_end = false; comment = [] }

abbrev pub end_element : Bytes → SetElement
end_element key = record { key = key; interval_end = true; comment = [] }

-- a set with no comment and no identifier yet
abbrev pub new_set : Table → Bytes → KeyType → Bool → Bool → Bool → NftSet
new_set table name key_type counted constant interval = record {
  table = table;
  name = name;
  id = 0;
  key_type = key_type;
  comment = [];
  counter = counted;
  constant = constant;
  interval = interval;
  anonymous = false;
}
