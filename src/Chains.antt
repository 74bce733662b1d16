-- ===== src/Chains.antt =====
-- Chains and tables: addChain, chainID, addTable and bootstrapNetfilterChains of
-- pkg/server/netfilterrules.go, with the constants of pkg/server/doc.go.
pub mod Growth
pub mod Kept
mod Samples
use multi_networkpolicy_nfta.Nft.{
  Table, Chain, new_table, new_chain, Libraries, Conn, Render, on_conn, send, gets, keep_chain,
}
use multi_networkpolicy_nfta.Keys.{hash_text}
use multi_networkpolicy_nfta.Base.{
  ltb, if◌then◌else◌, length, Bytes, codes, has_prefix, Err, is_not_exist, is_exist, Result, ok,
  err, ◌>>=◌, ◌>>◌, pure, raise, lift, Bool, Option, none, some, ◌++◌,
}

abbrev pub filter_table_name : Bytes
filter_table_name = codes "multi-networkpolicy-filter"

abbrev pub nat_table_name : Bytes
nat_table_name = codes "multi-networkpolicy-nat"

abbrev pub ingress_chain_name : Bytes
ingress_chain_name = codes "multi-ingress"

abbrev pub egress_chain_name : Bytes
egress_chain_name = codes "multi-egress"

abbrev pub common : Bytes
common = codes "common"

abbrev pub is_ingress_chain : Bytes → Bool
is_ingress_chain name = has_prefix name ingress_chain_name

pub chain_id : Chain → Bytes
chain_id c = c.table.name ++ (codes "-" ++ c.name)

abbrev plain_chain : Bytes → Table → Chain
plain_chain name table = record { name = name; table = table; base = none }

module _ ⦃lib : Libraries⦄ where
  unfoldable pub add_table : Table → Conn Table
  add_table table t = elim (lib.list_table_of_family t table.name table.family) [
    | ok found ↦ (ok found, t)
    | err e ↦ if is_not_exist e then (send (new_table table) >> pure table) t else (err e, t)
  ]

  unfoldable pub short_chain_name : Chain → Result Chain
  short_chain_name chain =
      if ltb 31 (length chain.name)
      then elim (hash_text chain.name) [ ok h ↦ ok (record chain { name = h }) | err e ↦ err e ]
      else ok chain

  unfoldable pub create_chain : Chain → Render Chain
  create_chain chain = do on_conn (send (new_chain chain)); pure chain

  -- The `if` after ListChain: what does not exist is added, and so is what was not returned.
  unfoldable pub place_chain : Chain → Option Chain × Option Err → Render Chain
  unfolding create_chain
  place_chain chain (none, e) = create_chain chain
  place_chain chain (some found, none) = pure found
  place_chain chain (some found, some e) =
      if is_not_exist e then create_chain chain else if is_exist e then pure found else raise e

  unfoldable pub add_chain : Chain → Render Chain
  unfolding short_chain_name place_chain chain_id
  add_chain wanted = do
    chain ← lift (short_chain_name wanted)
    answer ← gets (λ s. lib.list_chain s.sent chain.table chain.name)
    c ← place_chain chain answer
    keep_chain (chain_id c) c
    pure c
