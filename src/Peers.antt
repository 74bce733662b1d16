-- ===== src/Peers.antt =====
-- Peer rules: applyPrefixes, applyPolicyPeersRulesIPBlock, applyPolicyPeersRulesSelector,
-- addIPRule, addIPRules and applyPolicyPeersRules of pkg/server/netfilterrules.go.
pub mod Growth
use multi_networkpolicy_nfta.Nft.{
  Chain, KeyType, ip_addr_key, ip6_addr_key, NftSet, SetElement, drop, return, network_header, Expr,
  lookup, verdict, payload, counter, add_rule, Libraries, Render,
}
use multi_networkpolicy_nfta.Fields.{
  nfproto_ipv4, nfproto_ipv6, ipv4_len, ipv6_len, ipv4_offset, ipv6_offset, proto_ipv4, proto_ipv6,
  peer_rule_mark, complement32, get_address_suffix, concat, new_rule, nfproto_exprs, set_mark_exprs,
  plain_element, new_set,
}
use multi_networkpolicy_nfta.Keys.{hash_text}
use multi_networkpolicy_nfta.Prefixes.{get_prefixes_as_set_interval}
use multi_networkpolicy_nfta.Rules.{update_rule}
use multi_networkpolicy_nfta.Sets.{update_set}
use multi_networkpolicy_nfta.Chains.{is_ingress_chain}
use multi_networkpolicy_nfta.Cluster.{IpBlock, Peer, PolicyDeps}
use multi_networkpolicy_nfta.Base.{
  if◌then◌else◌, drop_first, replicate, is_empty, Bytes, codes, has_prefix, decimal, bad_address,
  Result, ok, err, ◌>>=◌, ◌>>◌, lift, done, when, ℕ, ◌+◌, Bool, true, false, not, Option, none,
  some, List, [], ◌∷◌, ◌++◌, map,
}

abbrev concat_with : Bytes → List Bytes → Bytes
concat_with sep [] = []
concat_with sep (s ∷ []) = s
concat_with sep (s ∷ t ∷ rest) = s ++ (sep ++ concat_with sep (t ∷ rest))

-- what differs between the families
pub record FamilyInfo : Type 0 where
  pub protocol : Bytes
  pub key_type : KeyType
  pub payload_len : ℕ
  pub offset : ℕ
  pub nf_protocol : ℕ

abbrev pub family_info : Bool → FamilyInfo
family_info false = record {
  protocol = proto_ipv4;
  key_type = ip_addr_key;
  payload_len = ipv4_len;
  offset = ipv4_offset;
  nf_protocol = nfproto_ipv4;
}
family_info true = record {
  protocol = proto_ipv6;
  key_type = ip6_addr_key;
  payload_len = ipv6_len;
  offset = ipv6_offset;
  nf_protocol = nfproto_ipv6;
}

-- the source address on an ingress chain, the destination address on any other
abbrev address_offset : Bytes → FamilyInfo → ℕ
address_offset chain_name f =
    if not (is_ingress_chain chain_name) then f.offset + f.payload_len else f.offset

-- a packet of the family whose address is in the set
abbrev pub address_exprs : Bytes → FamilyInfo → NftSet → List Expr
address_exprs chain_name f set =
    nfproto_exprs f.nf_protocol
    ++ (payload network_header 1 (address_offset chain_name f) f.payload_len
        ∷ lookup set.name set.id 1
        ∷ [])

module _ ⦃lib : Libraries⦄ where
  -- the peer bit is set, and the rest of the chain is passed over
  abbrev accept_peer_exprs : List Expr
  accept_peer_exprs =
      set_mark_exprs (complement32 peer_rule_mark) peer_rule_mark
      ++ (counter 0 0 ∷ verdict return [] ∷ [])

  apply_except :
      Bytes → Chain → Bytes → Bytes → ℕ → FamilyInfo → List SetElement → Render (Unit {0})
  apply_except chain_name chain policy_name cidr peer_index f except_prefixes = do
    set ←
        update_set
          (new_set chain.table
            (concat_with (codes "_") (
              chain_name
              ∷ codes "peer_ipblock_except"
              ∷ f.protocol
              ∷ get_address_suffix chain_name
              ∷ decimal peer_index
              ∷ []))
            f.key_type true false true)
          except_prefixes
    update_rule
        (new_rule chain.table chain
          (concat (
            codes "policy:"
            ∷ policy_name
            ∷ codes ", name:"
            ∷ chain_name
            ∷ codes ", cidr:"
            ∷ cidr
            ∷ codes ", deny"
            ∷ []))
          (address_exprs chain_name f set ++ (counter 0 0 ∷ verdict drop [] ∷ [])))
        add_rule false
    done

  apply_allowed :
      Bytes → Chain → Bytes → Bytes → ℕ → FamilyInfo → List SetElement → Render (Unit {0})
  apply_allowed chain_name chain policy_name cidr peer_index f prefixes = do
    set ←
        update_set
          (new_set chain.table
            (concat_with (codes "_") (
              chain_name
              ∷ codes "peer_ipblock"
              ∷ f.protocol
              ∷ get_address_suffix chain_name
              ∷ decimal peer_index
              ∷ []))
            f.key_type true true true)
          prefixes
    update_rule
        (new_rule chain.table chain
          (concat (
            codes "policy:"
            ∷ policy_name
            ∷ codes ", name:"
            ∷ chain_name
            ∷ codes ", cidr:"
            ∷ cidr
            ∷ codes ", accept"
            ∷ []))
          (address_exprs chain_name f set ++ accept_peer_exprs))
        add_rule false
    done

  apply_prefixes :
      Bytes
      → Chain
      → Bytes
      → Bytes
      → ℕ
      → List SetElement
      → List SetElement
      → Bool
      → Render (Unit {0})
  unfolding apply_except apply_allowed
  apply_prefixes chain_name chain policy_name cidr peer_index prefixes except_prefixes is_v6 =
      when (not (is_empty prefixes)) (do
        let f = family_info is_v6
        when (not (is_empty except_prefixes))
            (apply_except chain_name chain policy_name cidr peer_index f except_prefixes)
        apply_allowed chain_name chain policy_name cidr peer_index f prefixes)

  unfoldable pub apply_policy_peers_rules_ip_block :
      Bytes → Chain → Bytes → IpBlock → ℕ → Render (Unit {0})
  unfolding apply_prefixes
  apply_policy_peers_rules_ip_block chain_name chain policy_name block peer_index = do
    (v4_except, v6_except) ← lift (get_prefixes_as_set_interval block.except)
    (v4, v6) ← lift (get_prefixes_as_set_interval (block.cidr ∷ []))
    apply_prefixes chain_name chain policy_name block.cidr peer_index v4 v4_except false
    apply_prefixes chain_name chain policy_name block.cidr peer_index v6 v6_except true

-- net.IP.To4, of the 16 bytes that net.ParseIP gives
abbrev to4 : Option Bytes → Option Bytes
to4 none = none
to4 (some ip) =
    if has_prefix ip (replicate 10 0 ++ (255 ∷ 255 ∷ [])) then some (drop_first 12 ip) else none

abbrev get_or : Bytes → Option Bytes → Bytes
get_or d none = d
get_or d (some b) = b

-- the key of an address: 4 bytes where it is an IPv4 address, else its 16, else none
abbrev address_key : Option Bytes → Bytes
address_key ip = elim (to4 ip) [ some short ↦ short | none ↦ get_or [] ip ]

module _ ⦃lib : Libraries⦄ where
  selector_text : PolicyDeps → Peer → Bytes
  selector_text deps peer = elim peer.pod_selector [
    | none ↦ codes "<all>"
    | some sel ↦ deps.selector_text sel
  ]

  -- the family of the first address stands for all of them
  is_v6_text : Bytes → Bool
  is_v6_text addr = elim (to4 (lib.parse_ip addr)) [ none ↦ true | some _ ↦ false ]

  place_ip_rule :
      PolicyDeps → Bytes → List Bytes → Bool → Chain → Bytes → Peer → ℕ → Render (Unit {0})
  unfolding selector_text
  place_ip_rule deps chain_name addrs is_v6 chain policy_name peer peer_index = do
    let f = family_info is_v6
    selector_hash ← lift (hash_text (selector_text deps peer))
    set ←
        update_set
          (new_set chain.table
            (concat_with (codes "_") (
              chain_name
              ∷ get_address_suffix chain_name
              ∷ decimal peer_index
              ∷ f.protocol
              ∷ selector_hash
              ∷ []))
            f.key_type false false false)
          (map (λ addr. plain_element (address_key (lib.parse_ip addr))) addrs)
    update_rule
        (new_rule chain.table chain
          (concat (
            codes "policy:"
            ∷ policy_name
            ∷ codes ", name:"
            ∷ chain_name
            ∷ codes ", selector-for:"
            ∷ selector_hash
            ∷ codes ", protocol:"
            ∷ f.protocol
            ∷ []))
          (address_exprs chain_name f set ++ accept_peer_exprs))
        add_rule false
    done

  add_ip_rule : PolicyDeps → Bytes → List Bytes → Chain → Bytes → Peer → ℕ → Render (Unit {0})
  unfolding place_ip_rule is_v6_text
  add_ip_rule deps chain_name [] chain policy_name peer peer_index = done
  add_ip_rule deps chain_name (a ∷ addrs) chain policy_name peer peer_index =
      place_ip_rule deps chain_name (a ∷ addrs) (is_v6_text a) chain policy_name peer peer_index

  -- the IPv4 addresses and the IPv6 addresses, in their order
  split_families : List Bytes → List Bytes × List Bytes → Result (List Bytes × List Bytes)
  split_families [] acc = ok acc
  split_families (addr ∷ rest) (v4, v6) = elim (lib.parse_addr addr) [
    | none ↦ err bad_address
    | some a ↦
        split_families rest (if not a.is4 then (v4, v6 ++ (addr ∷ [])) else (v4 ++ (addr ∷ []), v6))
  ]

  unfoldable pub add_ip_rules :
      PolicyDeps → Bytes → List Bytes → Chain → Bytes → Peer → ℕ → Render (Unit {0})
  unfolding add_ip_rule split_families
  add_ip_rules deps chain_name addrs chain policy_name peer peer_index = do
    (v4, v6) ← lift (split_families addrs ([], []))
    add_ip_rule deps chain_name v4 chain policy_name peer peer_index
    add_ip_rule deps chain_name v6 chain policy_name peer peer_index
