-- ===== src/Marks.antt =====
-- The rules round a policy's ports and peers: applyPodInterfaceRules, applyGeneralMarkCheck,
-- applyMarkReset, applyMarkCheck and applyDropRemaining of pkg/server/netfilterrules.go.
pub mod Growth
use multi_networkpolicy_nfta.Nft.{
  Chain, drop, cmp_eq, Expr, meta, verdict, cmp, counter, add_rule, Libraries, Render, gets,
}
use multi_networkpolicy_nfta.Fields.{
  match_rule_mark, zero_rule_mark, complement32, ifname, get_meta_key_interface,
  policy_namespaced_name, concat, new_rule, jump_exprs, set_mark_exprs, check_mark_exprs,
}
use multi_networkpolicy_nfta.Rules.{update_rule}
use multi_networkpolicy_nfta.Cluster.{Policy, InterfaceInfo}
use multi_networkpolicy_nfta.Base.{
  Bytes, codes, decimal, ◌>>=◌, ◌>>◌, done, ℕ, Bool, false, List, [], ◌∷◌, ◌++◌,
}

module _ ⦃lib : Libraries⦄ where
  unfoldable pub apply_pod_interface_rules : Chain → Chain → Policy → InterfaceInfo → Render Bool
  apply_pod_interface_rules chain policy_chain policy pod_interface = do
    n ← gets (λ s. s.filter)
    update_rule
        (new_rule n chain
          (concat (
            codes "policy:"
            ∷ policy_namespaced_name policy
            ∷ codes ", name:"
            ∷ chain.name
            ∷ codes ", net-attach-def:"
            ∷ pod_interface.netattach_name
            ∷ codes ", interface:"
            ∷ pod_interface.interface_name
            ∷ codes ", cni:"
            ∷ pod_interface.interface_type
            ∷ codes ", jump:"
            ∷ policy_chain.name
            ∷ []))
          (meta (get_meta_key_interface chain.name) false 1
            ∷ cmp cmp_eq 1 (ifname pod_interface.interface_name)
            ∷ jump_exprs policy_chain.name))
        add_rule false

  unfoldable pub apply_general_mark_check : Chain → Policy → Render (Unit {0})
  apply_general_mark_check chain policy = do
    n ← gets (λ s. s.filter)
    update_rule
        (new_rule n chain
          (concat
            (codes "policy:" ∷ policy_namespaced_name policy ∷ codes ", check mark 0x30000" ∷ []))
          check_mark_exprs)
        add_rule false
    done

  unfoldable pub mark_reset_exprs : List Expr
  mark_reset_exprs =
      set_mark_exprs (complement32 match_rule_mark) zero_rule_mark ++ (counter 0 0 ∷ [])

  unfoldable pub apply_mark_reset : Bytes → Chain → Bytes → ℕ → Render (Unit {0})
  unfolding mark_reset_exprs
  apply_mark_reset policy_chain_name policy_chain policy_name index = do
    n ← gets (λ s. s.filter)
    update_rule
        (new_rule n policy_chain
          (concat (
            codes "policy:"
            ∷ policy_name
            ∷ codes ", name:"
            ∷ policy_chain_name
            ∷ codes " ingress:"
            ∷ decimal index
            ∷ codes ": reset"
            ∷ []))
          mark_reset_exprs)
        add_rule false
    done

  unfoldable pub apply_mark_check : Bytes → Chain → Bytes → ℕ → Render (Unit {0})
  apply_mark_check policy_chain_name policy_chain policy_name index = do
    update_rule
        (new_rule policy_chain.table policy_chain
          (concat (
            codes "policy:"
            ∷ policy_name
            ∷ codes ", name:"
            ∷ policy_chain_name
            ∷ codes " ingress:"
            ∷ decimal index
            ∷ codes " return"
            ∷ []))
          check_mark_exprs)
        add_rule false
    done

  unfoldable pub apply_drop_remaining : Chain → Bool → Render (Unit {0})
  apply_drop_remaining chain force = do
    update_rule
        (new_rule chain.table chain (codes "drop-remaining") (counter 0 0 ∷ verdict drop [] ∷ []))
        add_rule force
    done
