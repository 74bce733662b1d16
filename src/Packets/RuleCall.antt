-- ===== src/Packets/RuleCall.antt =====
-- What the render of one rule of a policy, without peers, sends to a kernel that has nothing of it
-- yet.
use multi_networkpolicy_nfta.Packets.Empty.{
  EmptyKernel, Sends, Sends-bind, Sends-none, update_rule-Sends, add_chain-Sends,
}
use multi_networkpolicy_nfta.Nft.{Chain, Rule, new_chain, add_rule, Libraries, NftState}
use multi_networkpolicy_nfta.Ports.{accept_all_exprs}
use multi_networkpolicy_nfta.Fields.{peer_rule_mark, concat, new_rule, check_mark_exprs}
use multi_networkpolicy_nfta.Rules.{update_rule}
use multi_networkpolicy_nfta.Names.{nft_name_with_suffix}
use multi_networkpolicy_nfta.Cluster.{Peer, PodInfo, PolicyDeps}
use multi_networkpolicy_nfta.Packets.PortCall.{jump_rule}
use multi_networkpolicy_nfta.Chains.{short_chain_name, add_chain}
use multi_networkpolicy_nfta.Marks.{mark_reset_exprs, apply_mark_reset, apply_mark_check}
use multi_networkpolicy_nfta.PolicyRules.{apply_policy_peers_rules}
use multi_networkpolicy_nfta.Base.{
  Bytes, codes, decimal, ok, ◌>>=◌, done, when, for_index, ℕ, ◌≡◌, refl, true, false, none, List,
  [], ◌∷◌, ◌++◌,
}

-- the chain of a rule's peers, before its name is shortened
abbrev pub peers_chain_of : Bytes → Chain → ℕ → Chain
peers_chain_of chain_name chain index = record {
  name = nft_name_with_suffix chain_name (codes "-") (codes "peers-" ++ decimal index);
  table = chain.table;
  base = none;
}

module _ ⦃lib : Libraries⦄ where
  pub rule_done-Sends :
      (empty : EmptyKernel lib) (r : Rule) (s : NftState)
      → Sends (update_rule r add_rule false >>= λ _. done) s tt (add_rule r ∷ [])
  rule_done-Sends empty r s =
      let first = update_rule-Sends empty r add_rule false s in
      Sends-bind (update_rule r add_rule false) (λ _. done) s true tt (add_rule r ∷ []) [] first
        (Sends-none tt first.0)

  pub apply_mark_reset-Sends :
      (empty : EmptyKernel lib) (chain_name : Bytes) (chain : Chain) (policy_name : Bytes)
      (index : ℕ) (s : NftState)
      → (r : Rule) × (r.chain.name ≡ chain.name)
        × (r.exprs ≡ mark_reset_exprs)
        × Sends (apply_mark_reset chain_name chain policy_name index) s tt (add_rule r ∷ [])
  unfolding apply_mark_reset
  apply_mark_reset-Sends empty chain_name chain policy_name index s =
      let r : Rule =
        new_rule s.filter chain
          (concat (
            codes "policy:"
            ∷ policy_name
            ∷ codes ", name:"
            ∷ chain_name
            ∷ codes " ingress:"
            ∷ decimal index
            ∷ codes ": reset"
            ∷ []))
          mark_reset_exprs in
      (r, refl, refl, rule_done-Sends empty r s)

  pub apply_mark_check-Sends :
      (empty : EmptyKernel lib) (chain_name : Bytes) (chain : Chain) (policy_name : Bytes)
      (index : ℕ) (s : NftState)
      → (r : Rule) × (r.chain.name ≡ chain.name)
        × (r.exprs ≡ check_mark_exprs)
        × Sends (apply_mark_check chain_name chain policy_name index) s tt (add_rule r ∷ [])
  unfolding apply_mark_check
  apply_mark_check-Sends empty chain_name chain policy_name index s =
      let r : Rule =
        new_rule chain.table chain
          (concat (
            codes "policy:"
            ∷ policy_name
            ∷ codes ", name:"
            ∷ chain_name
            ∷ codes " ingress:"
            ∷ decimal index
            ∷ codes " return"
            ∷ []))
          check_mark_exprs in
      (r, refl, refl, rule_done-Sends empty r s)

  -- a jump to the chain of the peers, and its one rule
  pub apply_policy_peers_rules-Sends :
      (empty : EmptyKernel lib) (deps : PolicyDeps) (chain_name : Bytes) (chain : Chain)
      (policy_name : Bytes) (pod_info : PodInfo) (networks : List Bytes) (index : ℕ) (s : NftState)
      (peers_chain : Chain)
      → short_chain_name (peers_chain_of chain_name chain index) ≡ ok peers_chain
      → (r : Rule) × (r.chain.name ≡ peers_chain.name)
        × (r.exprs ≡ accept_all_exprs peer_rule_mark)
        × Sends
            (apply_policy_peers_rules deps chain_name chain policy_name [] pod_info networks index)
            s
            tt
            (new_chain peers_chain
              ∷ add_rule (jump_rule chain_name chain policy_name peers_chain)
              ∷ add_rule r
              ∷ [])
  unfolding apply_policy_peers_rules accept_all_exprs
  apply_policy_peers_rules-Sends empty deps chain_name chain policy_name pod_info networks index s
        peers_chain short =
      let wanted = peers_chain_of chain_name chain index in
      let jump' = jump_rule chain_name chain policy_name peers_chain in
      let accept_name = concat (
        codes "policy:"
        ∷ policy_name
        ∷ codes ", name:"
        ∷ wanted.name
        ∷ codes ", no peers skipped accept all"
        ∷ []) in
      let accept' =
        new_rule chain.table peers_chain accept_name (accept_all_exprs peer_rule_mark) in
      let s1 = add_chain-Sends empty wanted peers_chain s short in
      let s2 = update_rule-Sends empty jump' add_rule false s1.0 in
      let s3 = rule_done-Sends empty accept' s2.0 in
      let t2 =
        Sends-bind (update_rule jump' add_rule false)
          (λ _. update_rule accept' add_rule false >>= λ _. done) s1.0 true tt (add_rule jump' ∷ [])
          (add_rule accept' ∷ []) s2 s3 in
      (
        accept',
        refl,
        refl,
        Sends-bind (add_chain wanted)
            (λ pc. update_rule (jump_rule chain_name chain policy_name pc) add_rule false >>= λ _.
              for_index 0 [] (λ (_ : ℕ) (_ : Peer). done) >>= λ _. when true (
                update_rule (new_rule chain.table pc accept_name (accept_all_exprs peer_rule_mark))
                  add_rule false
                >>= λ _. done))
            s peers_chain tt (new_chain peers_chain ∷ []) (add_rule jump' ∷ add_rule accept' ∷ [])
            s1 t2,
      )
