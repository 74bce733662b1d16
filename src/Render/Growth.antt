-- ===== src/Render/Growth.antt =====
-- Kept rules across the stages of a render.
use multi_networkpolicy_nfta.Nft.{Chain, Rule, Command, Libraries, NftState, has_key, Render}
use multi_networkpolicy_nfta.Render.{InternalPolicy, apply_policies, apply_direction}
use multi_networkpolicy_nfta.Rules.{rule_equal, update_rule}
use multi_networkpolicy_nfta.Rules.Growth.{Grows, Grows-pure, Grows-bind, Grows-when}
use multi_networkpolicy_nfta.Rules.Update.{ReadsAsked}
use multi_networkpolicy_nfta.PolicyRules.Growth.{apply_pod_rules-Grows}
use multi_networkpolicy_nfta.CommonRules.{apply_common_chain_rules}
use multi_networkpolicy_nfta.CommonRules.Growth.{apply_common_chain_rules-Grows}
use multi_networkpolicy_nfta.Marks.Growth.{
  apply_general_mark_check-Grows, apply_drop_remaining-Grows,
}
use multi_networkpolicy_nfta.Cluster.{PodInfo, CommonRuleConfig, PolicyDeps}
use multi_networkpolicy_nfta.Cleanup.{is_stale}
use multi_networkpolicy_nfta.Cleanup.Kept.{unhashed_stale, is_stale-key, update_rule-spared}
use multi_networkpolicy_nfta.Keys.{hash_rule}
use multi_networkpolicy_nfta.Base.{
  is_empty, ok, Result-cases, ◌≡◌, refl, ◌∙◌, inl, inr, Bool, true, false, not, ◌||◌, List, [], ◌∷◌,
  arith,
}

module _ ⦃lib : Libraries⦄ (deps : PolicyDeps) where
  apply_policies-Grows :
      (chain : Chain) (info : PodInfo) (policies : List InternalPolicy) (force : Bool)
      → Grows (apply_policies deps chain info policies force)
  unfolding apply_policies
  apply_policies-Grows chain info [] force = Grows-pure force
  apply_policies-Grows chain info (p ∷ ps) force =
      Grows-bind _ _ (apply_pod_rules-Grows deps chain info p.policy p.policy_networks)
        (λ new_rules.
          Grows-bind _ _ (apply_general_mark_check-Grows chain p.policy)
            (λ _. apply_policies-Grows chain info ps (new_rules || force)))

  pub apply_direction-Grows :
      (chain : Chain) (info : PodInfo) (policies : List InternalPolicy)
      → Grows (apply_direction deps chain info policies)
  unfolding apply_direction
  apply_direction-Grows chain info policies = Grows-when (not (is_empty policies)) _ (
      Grows-bind _ _ (apply_policies-Grows chain info policies false)
        (apply_drop_remaining-Grows chain))

  not_stale_later :
      {A : Type 0} (m : Render A) (s : NftState) (r : Rule)
      → Grows m
      → is_stale s.rules r ≡ false
      → is_stale (m s).1.rules r ≡ false
  not_stale_later m s r grows h = elim (Result-cases (hash_rule r)) [
    | inr (e, fails) ↦ absurd (cc (h, unhashed_stale s.rules r e fails))
    | inl (key, hashed) ↦
        let kept : has_key key s.rules ≡ true = ground (arith, is_stale-key s.rules r key hashed) in
        let later = (grows key).held s kept in
        is_stale-key (m s).1.rules r key hashed ∙ rw later refl
  ]

  -- A rule that the kernel holds, equal to one for which updateRule has succeeded, is spared by the
  -- clean-up whatever the render still does: after the common rules of any options, and after all
  -- rules of a direction with any policies, also where these stages fail on the way. The tables of
  -- both rules are of one family, and GetRules returns rules of the table that it is asked for.
  pub update_rule-spared_later :
      (reads : ReadsAsked lib) (rule : Rule) (action : Rule → Command) (force : Bool)
      (s s' : NftState) (is_new : Bool) (r : Rule) (cfg : CommonRuleConfig) (chain : Chain)
      (info : PodInfo) (policies : List InternalPolicy)
      → update_rule rule action force s ≡ (ok is_new, s')
      → rule_equal rule r ≡ true
      → rule.table.family ≡ r.table.family
      → (is_stale (apply_common_chain_rules cfg s').1.rules r ≡ false)
        × (is_stale (apply_direction deps chain info policies s').1.rules r ≡ false)
  update_rule-spared_later reads rule action force s s' is_new r cfg chain info policies h same
        family =
      let spared = update_rule-spared reads rule action force s s' is_new r h same family in
      (
        not_stale_later (apply_common_chain_rules cfg) s' r (apply_common_chain_rules-Grows cfg)
            spared,
        not_stale_later (apply_direction deps chain info policies) s' r
            (apply_direction-Grows chain info policies) spared,
      )
