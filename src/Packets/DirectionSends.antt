-- ===== src/Packets/DirectionSends.antt =====
-- What the render of the policies of one direction sends to a kernel that has nothing of them yet.
use mathlib.Core.Path.{subst}
use multi_networkpolicy_nfta.Packets.Empty.{EmptyKernel, Sends, Sends-bind, Sends-none}
use multi_networkpolicy_nfta.Nft.{Table, Chain, Rule, add_rule, Transcript, Libraries, NftState}
use multi_networkpolicy_nfta.Fields.{policy_namespaced_name, concat, new_rule, check_mark_exprs}
use multi_networkpolicy_nfta.Cluster.{Policy, PodInfo, PolicyDeps}
use multi_networkpolicy_nfta.Chains.{short_chain_name}
use multi_networkpolicy_nfta.Marks.{apply_general_mark_check}
use multi_networkpolicy_nfta.PolicyRules.{policy_chain_name_of, apply_pod_rules}
use multi_networkpolicy_nfta.Packets.RuleCall.{rule_done-Sends}
use multi_networkpolicy_nfta.Packets.ListSends.{RuleParts, rules_of, Ready}
use multi_networkpolicy_nfta.Packets.ListChains.{names_of}
use multi_networkpolicy_nfta.Packets.PodSends.{IsEntry, policy_side, policy_chain_for}
use multi_networkpolicy_nfta.Packets.PodCall.{PodWritten, apply_pod_rules-Sends}
use multi_networkpolicy_nfta.Render.{InternalPolicy, apply_policies}
use multi_networkpolicy_nfta.Base.{
  All, Bytes, codes, ok, ◌>>◌, ◌≡◌, refl, sym, ◌∙◌, Bool, ◌||◌, List, [], ◌∷◌, ◌++◌,
}

-- a policy with its networks, the parts of its rules, and its chain
pub record PolicyParts : Type 0 where
  pub policy : InternalPolicy
  pub rules : List RuleParts
  pub chain : Chain

abbrev pub policies_of : List PolicyParts → List InternalPolicy
policies_of [] = []
policies_of (q ∷ qs) = q.policy ∷ policies_of qs

abbrev pub own_names : PolicyParts → List Bytes
own_names q = q.chain.name ∷ names_of q.rules

abbrev pub all_names : List PolicyParts → List Bytes
all_names [] = []
all_names (q ∷ qs) = own_names q ++ all_names qs

module _ ⦃lib : Libraries⦄ where
  -- the rules have no peers, and their ports are accepted
  abbrev pub ReadyPolicy : Chain → Table → PolicyParts → Type 0
  ReadyPolicy entry table q =
      (policy_side entry.name q.policy.policy ≡ rules_of q.rules)
      × (short_chain_name (policy_chain_for entry.name q.policy.policy table) ≡ ok q.chain)
      × Ready (policy_chain_name_of entry.name q.policy.policy) q.chain 0 q.rules

  abbrev pub PolicyWritten : Chain → PodInfo → PolicyParts → Transcript → Type 0
  PolicyWritten entry pod_info q cmds =
      PodWritten entry q.chain q.policy.policy_networks pod_info q.rules cmds

  -- each policy is followed by a check of the mark
  abbrev pub DirectionWritten : Chain → PodInfo → List PolicyParts → Transcript → Type 0
  DirectionWritten entry pod_info [] cmds = cmds ≡ []
  DirectionWritten entry pod_info (q ∷ qs) cmds =
      (c : Transcript) × (r : Rule) × (cs : Transcript) × (cmds ≡ c ++ (add_rule r ∷ cs))
      × (r.chain.name ≡ entry.name)
      × (r.exprs ≡ check_mark_exprs)
      × PolicyWritten entry pod_info q c
      × DirectionWritten entry pod_info qs cs

  general_check-Sends :
      (empty : EmptyKernel lib) (entry : Chain) (policy : Policy) (s : NftState)
      → (r : Rule) × (r.chain.name ≡ entry.name)
        × (r.exprs ≡ check_mark_exprs)
        × Sends (apply_general_mark_check entry policy) s tt (add_rule r ∷ [])
  unfolding apply_general_mark_check
  general_check-Sends empty entry policy s =
      let r : Rule =
        new_rule s.filter entry
          (concat
            (codes "policy:" ∷ policy_namespaced_name policy ∷ codes ", check mark 0x30000" ∷ []))
          check_mark_exprs in
      (r, refl, refl, rule_done-Sends empty r s)

  pub apply_policies-Sends :
      (empty : EmptyKernel lib) (deps : PolicyDeps) (entry : Chain) (pod_info : PodInfo)
      (qs : List PolicyParts) (force : Bool) (s : NftState)
      → IsEntry entry.name
      → All (ReadyPolicy entry s.filter) qs
      → (b : Bool) × (cmds : Transcript) × Sends
          (apply_policies deps entry pod_info (policies_of qs) force)
          s
          b
          cmds
        × DirectionWritten entry pod_info qs cmds
  unfolding apply_policies
  apply_policies-Sends empty deps entry pod_info [] force s is_entry ready =
      (force, [], Sends-none force s, refl)
  apply_policies-Sends empty deps entry pod_info (q ∷ qs) force s is_entry
        ((side, short, rules), ready) =
      let p = q.policy in
      let (new_rules, c, s1, w) =
        apply_pod_rules-Sends empty deps entry pod_info p.policy p.policy_networks q.rules s q.chain
          is_entry side short rules in
      let (r, on_entry, is_check, s2) = general_check-Sends empty entry p.policy s1.0 in
      let (_, _, _, frame1) = s1 in
      let (_, _, _, frame2) = s2 in
      let (b, cs, s3, ws) =
        apply_policies-Sends empty deps entry pod_info qs (new_rules || force) s2.0 is_entry
          (subst (λ f. All (ReadyPolicy entry f) qs) (sym (frame2 ∙ frame1)) ready) in
      let later = λ (n : Bool). apply_policies deps entry pod_info (policies_of qs) (n || force) in
      let t2 =
        Sends-bind (apply_general_mark_check entry p.policy) (λ _. later new_rules) s1.0 tt b
          (add_rule r ∷ []) cs s2 s3 in
      (
        b,
        c ++ (add_rule r ∷ cs),
        Sends-bind (apply_pod_rules deps entry pod_info p.policy p.policy_networks)
            (λ n. apply_general_mark_check entry p.policy >> later n) s new_rules b c
            (add_rule r ∷ cs) s1 t2,
        (c, r, cs, refl, on_entry, is_check, w, ws),
      )
