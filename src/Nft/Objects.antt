-- ===== src/Nft/Objects.antt =====
-- The values that pkg/server builds and compares: tables, chains, sets, expressions and rules of
-- github.com/google/nftables, with the fields that the source sets or reads.
use multi_networkpolicy_nfta.Base.{ℕ, Bool, Option, List, Bytes}

pub data Family : Type 0 where
  inet : Family
  other_family : ℕ → Family

pub record Table : Type 0 where
  pub name : Bytes
  pub family : Family

pub data Hook : Type 0 where
  hook_input hook_output hook_prerouting : Hook

pub data ChainType : Type 0 where
  filter_type nat_type : ChainType

pub data Priority : Type 0 where
  filter_priority nat_dest_priority : Priority

-- The hook of a base chain; the daemon's other chains are reached by jumps only.
pub record BaseHook : Type 0 where
  pub hooknum : Hook
  pub priority : Priority
  pub kind : ChainType

pub record Chain : Type 0 where
  pub name : Bytes
  pub table : Table
  pub base : Option BaseHook

pub data KeyType : Type 0 where
  ifname_key ip_addr_key ip6_addr_key icmp6_key inet_service_key : KeyType

pub record NftSet : Type 0 where
  pub table : Table
  pub name : Bytes
  pub id : ℕ
  pub key_type : KeyType
  pub comment : Bytes
  pub counter : Bool
  pub constant : Bool
  pub interval : Bool
  pub anonymous : Bool

pub record SetElement : Type 0 where
  pub key : Bytes
  pub interval_end : Bool
  pub comment : Bytes

pub data MetaKey : Type 0 where
  key_iifname key_oifname key_l4proto key_nfproto key_mark : MetaKey

pub data VerdictKind : Type 0 where
  jump goto accept drop return : VerdictKind

pub data CmpOp : Type 0 where
  cmp_eq cmp_neq : CmpOp

pub data PayloadBase : Type 0 where
  network_header transport_header : PayloadBase

-- The expressions that the daemon writes, in the order of the fields named here, and any other.
--   meta key source_register register        lookup set_name set_id source_register
--   verdict kind chain                       cmp op register operand
--   payload base dest_register offset len    ct_state register
--   bitwise source dest len mask xor         counter bytes packets
pub data Expr : Type 0 where
  meta : MetaKey → Bool → ℕ → Expr
  lookup : Bytes → ℕ → ℕ → Expr
  verdict : VerdictKind → Bytes → Expr
  cmp : CmpOp → ℕ → Bytes → Expr
  payload : PayloadBase → ℕ → ℕ → ℕ → Expr
  ct_state : ℕ → Bool → Expr
  bitwise : ℕ → ℕ → ℕ → Bytes → Bytes → Expr
  counter : ℕ → ℕ → Expr
  other : ℕ → Expr

pub record Rule : Type 0 where
  pub table : Table
  pub chain : Chain
  pub user_data : Bytes
  pub exprs : List Expr
  pub handle : ℕ

-- The writes that go over the connection, in the order of the calls.
pub data Command : Type 0 where
  new_table del_table : Table → Command
  new_chain del_chain : Chain → Command
  add_rule insert_rule del_rule : Rule → Command
  add_set : NftSet → List SetElement → Command
  del_set : NftSet → Command
  set_add_elements set_delete_elements : NftSet → List SetElement → Command
  flush : Command

abbrev pub Transcript : Type 0
Transcript = List Command

-- `ruleData` of pkg/server/encoder.go: what the key of a rule is made from
pub record RuleData : Type 0 where
  pub table : Bytes
  pub chain : Bytes
  pub family : Family
  pub user_data : Bytes
  pub exprs : List Bytes
