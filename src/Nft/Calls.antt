-- ===== src/Nft/Calls.antt =====
-- Code that pkg/server calls and that is not its own. Each call of the nftables connection is a
-- function of everything written over the connection so far, so any deterministic library and
-- kernel is an instance. The packages encoding/gob, net and net/netip enter by their results.
use multi_networkpolicy_nfta.Base.{ℕ, Bool, Option, List, Bytes, Result, Err}
use multi_networkpolicy_nfta.Nft.Objects.{
  Family, Table, Chain, NftSet, SetElement, Expr, Rule, Command, Transcript, RuleData,
}

-- netip.Addr: the family and the number that its bytes spell
pub record Addr : Type 0 where
  pub is4 : Bool
  pub value : ℕ

-- netip.Prefix
pub record Prefix : Type 0 where
  pub addr : Addr
  pub bits : ℕ

pub record Libraries : Type 0 where
  -- nftables.Conn, reads
  pub list_table_of_family : Transcript → Bytes → Family → Result Table
  pub list_tables_of_family : Transcript → Family → Result (List Table)
  pub list_chains_of_table_family : Transcript → Family → Result (List Chain)
  pub list_chain : Transcript → Table → Bytes → Option Chain × Option Err
  pub get_rules : Transcript → Table → Chain → Result (List Rule)
  pub get_sets : Transcript → Table → Result (List NftSet)
  pub get_set_by_name : Transcript → Table → Bytes → Option NftSet × Option Err
  pub get_set_elements : Transcript → NftSet → Result (List SetElement)
  -- nftables.Conn, what a write that can fail answers, and the identifier that AddSet gives a set
  pub outcome : Transcript → Command → Option Err
  pub new_set_id : Transcript → NftSet → ℕ
  -- nftables/userdata with TypeComment, and nftables/binaryutil
  pub append_comment : Bytes → Bytes
  pub get_comment : Bytes → Option Bytes
  pub native_uint32 : ℕ → Bytes
  pub big_uint16 : ℕ → Bytes
  -- encoding/gob: the bytes of a value, or no value where Encode fails
  pub gob_text : Bytes → Option Bytes
  pub gob_expr : Expr → Option Bytes
  pub gob_rule : RuleData → Option Bytes
  -- net.ParseIP (16 bytes), netip.ParseAddr, netip.ParsePrefix, net.ParseCIDR
  pub parse_ip : Bytes → Option Bytes
  pub parse_addr : Bytes → Option Addr
  pub parse_prefix : Bytes → Option Prefix
  pub is_cidr : Bytes → Bool
  -- go4.org/netipx
  pub prefix_last_ip : Prefix → Addr
