-- ===== src/Marks/Growth.antt =====
-- The keys of kept rules across the rules round a policy.
use multi_networkpolicy_nfta.Nft.{Chain, add_rule, Libraries, gets}
use multi_networkpolicy_nfta.Marks.{
  apply_pod_interface_rules, apply_general_mark_check, apply_mark_reset, apply_mark_check,
  apply_drop_remaining,
}
use multi_networkpolicy_nfta.Rules.Growth.{
  Grows, Grows-gets, Grows-bind, Grows-update_rule, Grows-rule,
}
use multi_networkpolicy_nfta.Cluster.{Policy, InterfaceInfo}
use multi_networkpolicy_nfta.Base.{Bytes, ℕ, Bool, false}

module _ ⦃lib : Libraries⦄ where
  pub apply_pod_interface_rules-Grows :
      (chain policy_chain : Chain) (policy : Policy) (intf : InterfaceInfo)
      → Grows (apply_pod_interface_rules chain policy_chain policy intf)
  unfolding apply_pod_interface_rules
  apply_pod_interface_rules-Grows chain policy_chain policy intf =
      Grows-bind (gets (λ s. s.filter)) _ (Grows-gets (λ s. s.filter))
        (λ n. Grows-update_rule _ add_rule false)

  pub apply_general_mark_check-Grows :
      (chain : Chain) (policy : Policy) → Grows (apply_general_mark_check chain policy)
  unfolding apply_general_mark_check
  apply_general_mark_check-Grows chain policy =
      Grows-bind (gets (λ s. s.filter)) _ (Grows-gets (λ s. s.filter))
        (λ n. Grows-rule _ add_rule false)

  pub apply_mark_reset-Grows :
      (chain_name : Bytes) (chain : Chain) (policy_name : Bytes) (index : ℕ)
      → Grows (apply_mark_reset chain_name chain policy_name index)
  unfolding apply_mark_reset
  apply_mark_reset-Grows chain_name chain policy_name index =
      Grows-bind (gets (λ s. s.filter)) _ (Grows-gets (λ s. s.filter))
        (λ n. Grows-rule _ add_rule false)

  pub apply_mark_check-Grows :
      (chain_name : Bytes) (chain : Chain) (policy_name : Bytes) (index : ℕ)
      → Grows (apply_mark_check chain_name chain policy_name index)
  unfolding apply_mark_check
  apply_mark_check-Grows chain_name chain policy_name index = Grows-rule _ add_rule false

  pub apply_drop_remaining-Grows :
      (chain : Chain) (force : Bool) → Grows (apply_drop_remaining chain force)
  unfolding apply_drop_remaining
  apply_drop_remaining-Grows chain force = Grows-rule _ add_rule force
