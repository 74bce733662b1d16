-- ===== src/Packets/PodCall.antt =====
-- The whole of applyPodRules, for a policy whose rules have no peers.
use mathlib.Core.List.{append-nil}
use multi_networkpolicy_nfta.Packets.Empty.{
  EmptyKernel, Sends, Sends-bind, Sends-none, add_chain-Sends,
}
use multi_networkpolicy_nfta.Nft.{Chain, new_chain, Transcript, Libraries, NftState, Render}
use multi_networkpolicy_nfta.Fields.{policy_namespaced_name}
use multi_networkpolicy_nfta.Cluster.{Policy, PodInfo, PolicyDeps}
use multi_networkpolicy_nfta.Chains.{is_ingress_chain, short_chain_name, add_chain}
use multi_networkpolicy_nfta.PolicyRules.{
  or_empty, policy_chain_name_of, apply_rule, apply_interfaces, apply_pod_rules,
}
use multi_networkpolicy_nfta.Packets.ListSends.{
  RuleParts, rules_of, Ready, AllWritten, rules_of-Sends,
}
use multi_networkpolicy_nfta.Packets.PodSends.{
  entry_rules, OnlyEntry, apply_interfaces-Sends, IsEntry, policy_side, same_direction,
  policy_chain_for,
}
use multi_networkpolicy_nfta.Base.{
  if◌then◌else◌, Bool-cases, Bytes, ok, ◌>>=◌, ◌>>◌, pure, for_index, ◌≡◌, sym, ap, ◌∙◌, inl, inr,
  Bool, true, false, List, [], ◌∷◌, ◌++◌,
}

module _ ⦃lib : Libraries⦄ where
  -- what is sent behind the new chain of the policy
  abbrev pub PodWritten :
      Chain → Chain → List Bytes → PodInfo → List RuleParts → Transcript → Type 0
  PodWritten chain policy_chain networks pod_info ts cmds =
      (entry_cmds : Transcript) × (rule_cmds : Transcript) × (cmds
        ≡ new_chain policy_chain ∷ (entry_cmds ++ rule_cmds))
      × OnlyEntry chain.name (entry_rules chain.name policy_chain.name networks pod_info.interfaces)
          entry_cmds
      × AllWritten policy_chain ts rule_cmds

  -- the loop over the rules of the policy's side
  abbrev side_code : PolicyDeps → Chain → PodInfo → Policy → List Bytes → Chain → Render (Unit {0})
  side_code deps chain pod_info policy networks policy_chain =
      if is_ingress_chain (policy_chain_name_of chain.name policy)
      then for_index 0 (or_empty policy.ingress) (
          apply_rule deps (policy_chain_name_of chain.name policy) policy_chain
            (policy_namespaced_name policy) (policy_namespaced_name policy) pod_info networks)
      else for_index 0 (or_empty policy.egress) (
          apply_rule deps (policy_chain_name_of chain.name policy) policy_chain policy.name
            (policy_namespaced_name policy) pod_info networks)

  side_code-Sends :
      (empty : EmptyKernel lib) (deps : PolicyDeps) (chain : Chain) (pod_info : PodInfo)
      (policy : Policy) (networks : List Bytes) (ts : List RuleParts) (s : NftState)
      (policy_chain : Chain)
      → IsEntry chain.name
      → policy_side chain.name policy ≡ rules_of ts
      → Ready (policy_chain_name_of chain.name policy) policy_chain 0 ts
      → (cmds : Transcript) × Sends
          (side_code deps chain pod_info policy networks policy_chain)
          s
          tt
          cmds
        × AllWritten policy_chain ts cmds
  side_code-Sends empty deps chain pod_info policy networks ts s policy_chain entry side ready =
      let name = policy_namespaced_name policy in
      let chain_name = policy_chain_name_of chain.name policy in
      let d = same_direction chain.name policy entry in
      let chosen = λ (b : Bool) (e : is_ingress_chain chain.name ≡ b).
        sym (ap (λ c. or_empty (if c then policy.ingress else policy.egress)) e) ∙ side in
      elim (Bool-cases (is_ingress_chain chain.name)) [
        | inl ingress_ ↦
            rw (d ∙ ingress_, chosen true ingress_)
              (rules_of-Sends empty deps chain_name policy_chain name name pod_info networks 0 ts s
                ready)
        | inr egress_ ↦
            rw (d ∙ egress_, chosen false egress_)
              (rules_of-Sends empty deps chain_name policy_chain policy.name name pod_info networks
                0 ts s ready)
      ]

  pub apply_pod_rules-Sends :
      (empty : EmptyKernel lib) (deps : PolicyDeps) (chain : Chain) (pod_info : PodInfo)
      (policy : Policy) (networks : List Bytes) (ts : List RuleParts) (s : NftState)
      (policy_chain : Chain)
      → IsEntry chain.name
      → policy_side chain.name policy ≡ rules_of ts
      → short_chain_name (policy_chain_for chain.name policy s.filter) ≡ ok policy_chain
      → Ready (policy_chain_name_of chain.name policy) policy_chain 0 ts
      → (b : Bool) × (cmds : Transcript) × Sends
          (apply_pod_rules deps chain pod_info policy networks)
          s
          b
          cmds
        × PodWritten chain policy_chain networks pod_info ts cmds
  unfolding apply_pod_rules
  apply_pod_rules-Sends empty deps chain pod_info policy networks ts s policy_chain entry side short
        ready =
      let wanted = policy_chain_for chain.name policy s.filter in
      let name = policy_namespaced_name policy in
      let chain_name = policy_chain_name_of chain.name policy in
      let s1 = add_chain-Sends empty wanted policy_chain s short in
      let (b, entry_cmds, s2, only) =
        apply_interfaces-Sends empty deps chain policy_chain policy networks pod_info.interfaces
          false s1.0 in
      let (rule_cmds, s3, w) =
        side_code-Sends empty deps chain pod_info policy networks ts s2.0 policy_chain entry side
          ready in
      let side_of = side_code deps chain pod_info policy networks in
      let intfs =
        λ (pc : Chain). apply_interfaces deps chain pc policy networks pod_info.interfaces false in
      let t4 =
        Sends-bind (side_of policy_chain) (λ _. pure b) s2.0 tt b rule_cmds [] s3
          (Sends-none b s3.0) in
      let t3 =
        Sends-bind (intfs policy_chain) (λ n. side_of policy_chain >> pure n) s1.0 b b entry_cmds
          (rule_cmds ++ []) s2 t4 in
      (
        b,
        new_chain policy_chain ∷ (entry_cmds ++ (rule_cmds ++ [])),
        Sends-bind (add_chain wanted) (λ pc. intfs pc >>= λ n. side_of pc >> pure n) s policy_chain
            b (new_chain policy_chain ∷ []) (entry_cmds ++ (rule_cmds ++ [])) s1 t3,
        (
          entry_cmds,
          rule_cmds,
          ap (λ l. new_chain policy_chain ∷ (entry_cmds ++ l)) (append-nil rule_cmds),
          only,
          w,
        ),
      )
