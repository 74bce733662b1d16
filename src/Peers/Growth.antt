-- ===== src/Peers/Growth.antt =====
-- The keys of kept rules across the rules for peers.
use multi_networkpolicy_nfta.Nft.{Chain, SetElement, add_rule, Libraries}
use multi_networkpolicy_nfta.Peers.{
  FamilyInfo, family_info, apply_except, apply_allowed, apply_prefixes,
  apply_policy_peers_rules_ip_block, selector_text, is_v6_text, place_ip_rule, add_ip_rule,
  split_families, add_ip_rules,
}
use multi_networkpolicy_nfta.Rules.Growth.{
  Grows, Grows-lift, Grows-bind, Grows-when, Grows-done, Grows-rule,
}
use multi_networkpolicy_nfta.Sets.Growth.{update_set-Grows}
use multi_networkpolicy_nfta.Cluster.{IpBlock, Peer, PolicyDeps}
use multi_networkpolicy_nfta.Sets.{update_set}
use multi_networkpolicy_nfta.Keys.{hash_text}
use multi_networkpolicy_nfta.Prefixes.{get_prefixes_as_set_interval}
use multi_networkpolicy_nfta.Base.{
  is_empty, Bytes, lift, when, ℕ, Bool, true, false, not, List, [], ◌∷◌,
}

module _ ⦃lib : Libraries⦄ where
  apply_except-Grows :
      (chain_name : Bytes) (chain : Chain) (policy_name cidr : Bytes) (index : ℕ) (f : FamilyInfo)
      (elements : List SetElement)
      → Grows (apply_except chain_name chain policy_name cidr index f elements)
  unfolding apply_except
  apply_except-Grows chain_name chain policy_name cidr index f elements =
      Grows-bind (update_set _ elements) _ (update_set-Grows _ elements)
        (λ _. Grows-rule _ add_rule false)

  apply_allowed-Grows :
      (chain_name : Bytes) (chain : Chain) (policy_name cidr : Bytes) (index : ℕ) (f : FamilyInfo)
      (elements : List SetElement)
      → Grows (apply_allowed chain_name chain policy_name cidr index f elements)
  unfolding apply_allowed
  apply_allowed-Grows chain_name chain policy_name cidr index f elements =
      Grows-bind (update_set _ elements) _ (update_set-Grows _ elements)
        (λ _. Grows-rule _ add_rule false)

  apply_prefixes-Grows :
      (chain_name : Bytes) (chain : Chain) (policy_name cidr : Bytes) (index : ℕ)
      (prefixes except_prefixes : List SetElement) (is_v6 : Bool)
      → Grows
          (apply_prefixes chain_name chain policy_name cidr index prefixes except_prefixes is_v6)
  unfolding apply_prefixes
  apply_prefixes-Grows chain_name chain policy_name cidr index prefixes except_prefixes is_v6 =
      let f = family_info is_v6 in
      let except = apply_except chain_name chain policy_name cidr index f except_prefixes in
      Grows-when (not (is_empty prefixes)) _ (
        Grows-bind (when (not (is_empty except_prefixes)) except) _
          (Grows-when (not (is_empty except_prefixes)) except
            (apply_except-Grows chain_name chain policy_name cidr index f except_prefixes))
          (λ _. apply_allowed-Grows chain_name chain policy_name cidr index f prefixes))

  pub apply_policy_peers_rules_ip_block-Grows :
      (chain_name : Bytes) (chain : Chain) (policy_name : Bytes) (block : IpBlock) (index : ℕ)
      → Grows (apply_policy_peers_rules_ip_block chain_name chain policy_name block index)
  unfolding apply_policy_peers_rules_ip_block
  apply_policy_peers_rules_ip_block-Grows chain_name chain policy_name block index =
      let excepted = get_prefixes_as_set_interval block.except in
      let allowed = get_prefixes_as_set_interval (block.cidr ∷ []) in
      Grows-bind (lift excepted) _ (Grows-lift excepted) (λ e.
        Grows-bind (lift allowed) _ (Grows-lift allowed) (λ a.
          Grows-bind _ _
            (apply_prefixes-Grows chain_name chain policy_name block.cidr index a.0 e.0 false)
            (λ _. apply_prefixes-Grows chain_name chain policy_name block.cidr index a.1 e.1 true)))

  place_ip_rule-Grows :
      (deps : PolicyDeps) (chain_name : Bytes) (addrs : List Bytes) (is_v6 : Bool) (chain : Chain)
      (policy_name : Bytes) (peer : Peer) (index : ℕ)
      → Grows (place_ip_rule deps chain_name addrs is_v6 chain policy_name peer index)
  unfolding place_ip_rule
  place_ip_rule-Grows deps chain_name addrs is_v6 chain policy_name peer index =
      let hashed = hash_text (selector_text deps peer) in
      Grows-bind (lift hashed) _ (Grows-lift hashed) (λ h.
        Grows-bind (update_set _ _) _ (update_set-Grows _ _) (λ _. Grows-rule _ add_rule false))

  add_ip_rule-Grows :
      (deps : PolicyDeps) (chain_name : Bytes) (addrs : List Bytes) (chain : Chain)
      (policy_name : Bytes) (peer : Peer) (index : ℕ)
      → Grows (add_ip_rule deps chain_name addrs chain policy_name peer index)
  unfolding add_ip_rule
  add_ip_rule-Grows deps chain_name [] chain policy_name peer index = Grows-done
  add_ip_rule-Grows deps chain_name (a ∷ addrs) chain policy_name peer index =
      place_ip_rule-Grows deps chain_name (a ∷ addrs) (is_v6_text a) chain policy_name peer index

  pub add_ip_rules-Grows :
      (deps : PolicyDeps) (chain_name : Bytes) (addrs : List Bytes) (chain : Chain)
      (policy_name : Bytes) (peer : Peer) (index : ℕ)
      → Grows (add_ip_rules deps chain_name addrs chain policy_name peer index)
  unfolding add_ip_rules
  add_ip_rules-Grows deps chain_name addrs chain policy_name peer index =
      let parts = split_families addrs ([], []) in
      Grows-bind (lift parts) _ (Grows-lift parts) (λ vs.
        Grows-bind _ _ (add_ip_rule-Grows deps chain_name vs.0 chain policy_name peer index)
          (λ _. add_ip_rule-Grows deps chain_name vs.1 chain policy_name peer index))
