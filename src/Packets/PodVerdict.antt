-- ===== src/Packets/PodVerdict.antt =====
-- What applyPodRules makes of a policy whose rules have no peers, for a packet.
use mathlib.Core.Path.{subst}
use multi_networkpolicy_nfta.Packets.{Vm, Step, word, Evaluates}
use multi_networkpolicy_nfta.Packets.Marks.{both_bits}
use multi_networkpolicy_nfta.Packets.Chain.{rules_after, falls, rules_after-append, run_chain}
use multi_networkpolicy_nfta.Packets.Empty.{EmptyKernel}
use multi_networkpolicy_nfta.Packets.PortChain.{SetHolds}
use multi_networkpolicy_nfta.Nft.{Chain, Expr, Libraries, NftState}
use multi_networkpolicy_nfta.Ports.Interval.{PutsBigEndian}
use multi_networkpolicy_nfta.Cluster.{Policy, PodInfo, PolicyDeps}
use multi_networkpolicy_nfta.Packets.PortMatch.{Matches}
use multi_networkpolicy_nfta.Packets.PortCall.{new_commands, Sends-new_commands, Sends-sent}
use multi_networkpolicy_nfta.Chains.{short_chain_name}
use multi_networkpolicy_nfta.PolicyRules.{policy_chain_name_of, apply_pod_rules}
use multi_networkpolicy_nfta.Packets.ListSends.{RuleParts, rules_of, Ready}
use multi_networkpolicy_nfta.Packets.ListChains.{names_of, AllDiffer}
use multi_networkpolicy_nfta.Packets.ListAdmission.{Same}
use multi_networkpolicy_nfta.Packets.PodSends.{entry_rules, IsEntry, policy_side, policy_chain_for}
use multi_networkpolicy_nfta.Packets.PodCall.{apply_pod_rules-Sends}
use multi_networkpolicy_nfta.Packets.PolicyAdmission.{policy_admits, on_entry_chain}
use multi_networkpolicy_nfta.Base.{
  is_empty, All, Any, All-zip, Bytes, ok, ℕ, suc, ◌≤◌, ◌<◌, ◌≡◌, ap, ◌∙◌, ◌↔◌, Bool, true, false,
  List, [], ◌∷◌, ◌++◌,
}

module _ (lib : Libraries) (step : Expr → Vm → Step) (sets : Bytes → Bytes → Bool) (l4proto : Bytes)
    (x : ℕ) (ev : Evaluates lib step sets l4proto (lib.big_uint16 x)) where
  -- applyPodRules for a policy whose rules have no peers, under the chain of either direction, on a
  -- kernel that shows nothing of the policy yet: the call succeeds, and behind the rules that the
  -- entry chain had it gets a jump to the policy's chain for each interface on a network of the
  -- policy, and no other rule. A packet that takes the jump comes back with both bits of the mark
  -- set iff the ports of some rule of the policy match it; where the policy has no rule, this is
  -- said of packets that do not have both bits before. The ports of a rule match where one of them
  -- has the packet's protocol, TCP where it names none, and admits its destination port, and also
  -- where each of them names neither a port nor a protocol, or there is none: then packets of every
  -- protocol match, where the CRD has TCP for a port without a protocol. The names of all chains
  -- differ, the chains of the policy are new, the sets are those of the kernel after these writes,
  -- the ports are all accepted, and the kernel follows jumps of depth two or more.
  pub apply_pod_rules-admits :
      (empty : EmptyKernel lib) (puts : PutsBigEndian lib) (deps : PolicyDeps) (chain : Chain)
      (pod_info : PodInfo) (policy : Policy) (networks : List Bytes) (ts : List RuleParts)
      (s : NftState) (policy_chain : Chain) (m depth : ℕ)
      → IsEntry chain.name
      → policy_side chain.name policy ≡ rules_of ts
      → short_chain_name ⦃lib = lib⦄ (policy_chain_for chain.name policy s.filter) ≡ ok policy_chain
      → Ready ⦃lib = lib⦄ (policy_chain_name_of chain.name policy) policy_chain 0 ts
      → AllDiffer (chain.name ∷ policy_chain.name ∷ names_of ts)
      → All (λ n. rules_after n [] s.sent ≡ []) (policy_chain.name ∷ names_of ts)
      → All
          (SetHolds lib sets)
          (new_commands (apply_pod_rules ⦃lib = lib⦄ deps chain pod_info policy networks) s)
      → x ≤ 65535
      → m < word
      → (is_empty ts ≡ true → both_bits m ≡ false)
      → let code = apply_pod_rules ⦃lib = lib⦄ deps chain pod_info policy networks in
        let full = (code s).1.sent in
        ((b : Bool) × ((code s).0 ≡ ok b))
        × (rules_after chain.name [] full
            ≡ rules_after chain.name [] s.sent
              ++ entry_rules ⦃lib = lib⦄ chain.name policy_chain.name networks pod_info.interfaces)
        × (m' : ℕ) × ((both_bits m' ≡ true) ↔ Any (λ t. Matches t.ports l4proto x) ts)
        × (run_chain step full (suc (suc depth)) policy_chain.name m ≡ falls m')
  apply_pod_rules-admits empty puts deps chain pod_info policy networks ts s policy_chain m depth
        entry side short ready differ_ new_chains hold k lt no_rule =
      let code = apply_pod_rules ⦃lib = lib⦄ deps chain pod_info policy networks in
      let (b, cmds, sends, w) =
        apply_pod_rules-Sends ⦃lib = lib⦄ empty deps chain pod_info policy networks ts s
          policy_chain entry side short ready in
      let (done_, sent) = Sends-new_commands code s b cmds sends in
      let all = s.sent ++ cmds in
      let full = Sends-sent code s b cmds sends in
      let names = policy_chain.name ∷ names_of ts in
      let new_one = λ (n : Bytes). rules_after n [] s.sent ≡ [] in
      let same =
        All-zip new_one new_one (Same lib step sets l4proto x ev all cmds) names
          (λ n e _. rules_after-append n [] s.sent cmds ∙ ap (λ l. rules_after n l cmds) e)
          new_chains new_chains in
      let (m', _, iff, run) =
        policy_admits lib step sets l4proto x ev puts (policy_chain_name_of chain.name policy) chain
          policy_chain networks pod_info ts m depth cmds all ready differ_ w same
          (subst (All (SetHolds lib sets)) sent hold) k lt no_rule in
      let on_entry =
        rules_after-append chain.name [] s.sent cmds
        ∙ on_entry_chain lib step sets l4proto x ev chain policy_chain networks pod_info ts cmds
            differ_ w (rules_after chain.name [] s.sent) in
      (
        (b, done_),
        ap (rules_after chain.name []) full ∙ on_entry,
        m',
        iff,
        ap (λ u. run_chain step u (suc (suc depth)) policy_chain.name m) full ∙ run,
      )
