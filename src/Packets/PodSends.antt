-- ===== src/Packets/PodSends.antt =====
-- What applyPodRules sends for a pod to a kernel that has nothing of the policy yet.
use mathlib.Core.List.{append-nil}
use multi_networkpolicy_nfta.Packets.Chain.{rules_after, rules_after-append}
use multi_networkpolicy_nfta.Packets.Empty.{
  EmptyKernel, Sends, Sends-bind, Sends-none, update_rule-Sends,
}
use multi_networkpolicy_nfta.Nft.{
  Table, Chain, cmp_eq, Expr, meta, cmp, Rule, add_rule, Transcript, Libraries, NftState,
}
use multi_networkpolicy_nfta.Fields.{
  ifname, get_meta_key_interface, policy_namespaced_name, concat, new_rule, jump_exprs,
}
use multi_networkpolicy_nfta.Cluster.{
  PolicyRule, Policy, InterfaceInfo, PolicyDeps, on_policy_network,
}
use multi_networkpolicy_nfta.Packets.PortRules.{Untouched, rule_elsewhere}
use multi_networkpolicy_nfta.Chains.{ingress_chain_name, egress_chain_name, is_ingress_chain}
use multi_networkpolicy_nfta.Marks.{apply_pod_interface_rules}
use multi_networkpolicy_nfta.PolicyRules.{or_empty, policy_chain_name_of, apply_interfaces}
use multi_networkpolicy_nfta.Packets.Adds.{Adds, Adds-append, Adds-here}
use multi_networkpolicy_nfta.PolicyRules.ChainName.{is_ingress_chain-policy_chain_name_of}
use multi_networkpolicy_nfta.Base.{
  if◌then◌else◌, Bool-cases, Bytes, codes, ◌≡◌, refl, sym, ap, ◌∙◌, ◌≢◌, ◌⊎◌, inl, inr, Bool, true,
  false, ◌||◌, none, List, [], ◌∷◌,
}

module _ ⦃lib : Libraries⦄ where
  -- a jump to the policy's chain for packets of one interface
  abbrev pub interface_exprs : Bytes → Bytes → InterfaceInfo → List Expr
  interface_exprs entry_name target intf =
      meta (get_meta_key_interface entry_name) false 1
      ∷ cmp cmp_eq 1 (ifname intf.interface_name)
      ∷ jump_exprs target

  -- the jumps of the interfaces that the policy's networks name
  abbrev pub entry_rules : Bytes → Bytes → List Bytes → List InterfaceInfo → List (List Expr)
  entry_rules entry_name target networks [] = []
  entry_rules entry_name target networks (intf ∷ rest) =
      if on_policy_network intf networks
      then interface_exprs entry_name target intf ∷ entry_rules entry_name target networks rest
      else entry_rules entry_name target networks rest

  -- writes on the entry chain alone
  abbrev pub OnlyEntry : Bytes → List (List Expr) → Transcript → Type 0
  OnlyEntry entry_name rules cmds =
      Adds entry_name rules cmds × ((n : Bytes) → n ≢ entry_name → Untouched n cmds)

  interface_rule-Sends :
      (empty : EmptyKernel lib) (chain policy_chain : Chain) (policy : Policy)
      (intf : InterfaceInfo) (s : NftState)
      → (r : Rule) × (r.chain.name ≡ chain.name)
        × (r.exprs ≡ interface_exprs chain.name policy_chain.name intf)
        × Sends (apply_pod_interface_rules chain policy_chain policy intf) s true (add_rule r ∷ [])
  unfolding apply_pod_interface_rules
  interface_rule-Sends empty chain policy_chain policy intf s =
      let r : Rule =
        new_rule s.filter chain
          (concat (
            codes "policy:"
            ∷ policy_namespaced_name policy
            ∷ codes ", name:"
            ∷ chain.name
            ∷ codes ", net-attach-def:"
            ∷ intf.netattach_name
            ∷ codes ", interface:"
            ∷ intf.interface_name
            ∷ codes ", cni:"
            ∷ intf.interface_type
            ∷ codes ", jump:"
            ∷ policy_chain.name
            ∷ []))
          (interface_exprs chain.name policy_chain.name intf) in
      (r, refl, refl, update_rule-Sends empty r add_rule false s)

  pub apply_interfaces-Sends :
      (empty : EmptyKernel lib) (deps : PolicyDeps) (chain policy_chain : Chain) (policy : Policy)
      (networks : List Bytes) (intfs : List InterfaceInfo) (new_rules : Bool) (s : NftState)
      → (b : Bool) × (cmds : Transcript) × Sends
          (apply_interfaces deps chain policy_chain policy networks intfs new_rules)
          s
          b
          cmds
        × OnlyEntry chain.name (entry_rules chain.name policy_chain.name networks intfs) cmds
  unfolding apply_interfaces
  apply_interfaces-Sends empty deps chain policy_chain policy networks [] new_rules s = (
    new_rules,
    [],
    Sends-none new_rules s,
    ((λ rules. sym (append-nil rules)), λ n differs rules. refl),
  )
  apply_interfaces-Sends empty deps chain policy_chain policy networks (intf ∷ rest) new_rules s =
      elim (Bool-cases (on_policy_network intf networks)) [
        | inr off ↦
            rw off (
              apply_interfaces-Sends empty deps chain policy_chain policy networks rest new_rules s)
        | inl on ↦
            let (r, on_entry, exprs, s1) =
              interface_rule-Sends empty chain policy_chain policy intf s in
            let (b, cmds, s2, (adds, others)) =
              apply_interfaces-Sends empty deps chain policy_chain policy networks rest true s1.0 in
            let es = interface_exprs chain.name policy_chain.name intf in
            rw on (
              b,
              add_rule r ∷ cmds,
              Sends-bind (apply_pod_interface_rules chain policy_chain policy intf)
                  (λ n.
                    apply_interfaces deps chain policy_chain policy networks rest (n || new_rules))
                  s true b (add_rule r ∷ []) cmds s1 s2,
              (
                Adds-append chain.name (es ∷ [])
                    (entry_rules chain.name policy_chain.name networks rest) (add_rule r ∷ []) cmds
                    (Adds-here chain.name r es on_entry exprs) adds,
                λ n differs rules.
                    rules_after-append n rules (add_rule r ∷ []) cmds
                    ∙ ap (λ l. rules_after n l cmds)
                        (rule_elsewhere n r chain.name on_entry differs rules)
                    ∙ others n differs rules,
              ),
            )
      ]

-- one of the two chains that the hooks enter
abbrev pub IsEntry : Bytes → Type 0
IsEntry name = (name ≡ ingress_chain_name) ⊎ (name ≡ egress_chain_name)

-- the rules of a policy that belong to an entry chain
abbrev pub policy_side : Bytes → Policy → List PolicyRule
policy_side entry_name policy =
    or_empty (if is_ingress_chain entry_name then policy.ingress else policy.egress)

pub same_direction :
    (name : Bytes) (policy : Policy)
    → IsEntry name
    → is_ingress_chain (policy_chain_name_of name policy) ≡ is_ingress_chain name
same_direction name policy (inl e) = rw e ((is_ingress_chain-policy_chain_name_of policy).0)
same_direction name policy (inr e) = rw e ((is_ingress_chain-policy_chain_name_of policy).1)

-- the chain of a policy, before its name is shortened
abbrev pub policy_chain_for : Bytes → Policy → Table → Chain
policy_chain_for entry_name policy table = record {
  name = policy_chain_name_of entry_name policy;
  table = table;
  base = none;
}
