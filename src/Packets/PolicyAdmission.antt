-- ===== src/Packets/PolicyAdmission.antt =====
-- What the chain of a policy whose rules have no peers does to a packet.
use mathlib.Core.Path.{subst}
use multi_networkpolicy_nfta.Packets.{Vm, Step, word, Evaluates}
use multi_networkpolicy_nfta.Packets.Marks.{both_bits}
use multi_networkpolicy_nfta.Packets.Chain.{
  rules_after, falls, run_rules, rules_after-append, run_chain,
}
use multi_networkpolicy_nfta.Packets.PortChain.{SetHolds}
use multi_networkpolicy_nfta.Nft.{Chain, Expr, Transcript, Libraries}
use multi_networkpolicy_nfta.Ports.Interval.{PutsBigEndian}
use multi_networkpolicy_nfta.Cluster.{PodInfo}
use multi_networkpolicy_nfta.Packets.PortRules.{Untouched}
use multi_networkpolicy_nfta.Packets.Adds.{Adds}
use multi_networkpolicy_nfta.Packets.ListSends.{RuleParts, Ready}
use multi_networkpolicy_nfta.Packets.ListChains.{
  names_of, NotAmong, AllDiffer, on_list_chain, all_elsewhere,
}
use multi_networkpolicy_nfta.Packets.ListAdmission.{Same, SomeMatches, list_admits}
use multi_networkpolicy_nfta.Packets.PodSends.{entry_rules}
use multi_networkpolicy_nfta.Packets.PodCall.{PodWritten}
use multi_networkpolicy_nfta.Base.{
  is_empty, All, All-zip, All-split, Bytes, ℕ, suc, ◌≤◌, ◌<◌, ◌≡◌, sym, ap, ◌∙◌, ◌≢◌, ◌↔◌, Bool,
  true, false, List, [], ◌∷◌,
}

module _ (lib : Libraries) (step : Expr → Vm → Step) (sets : Bytes → Bytes → Bool) (l4proto : Bytes)
    (x : ℕ) (ev : Evaluates lib step sets l4proto (lib.big_uint16 x)) where
  -- the policy's chain ends with both bits iff some rule matches
  abbrev pub PolicyEnd : Transcript → Bytes → List RuleParts → ℕ → ℕ → Type 0
  PolicyEnd all policy_name ts m depth =
      (m' : ℕ) × (m' < word)
      × ((both_bits m' ≡ true) ↔ SomeMatches lib step sets l4proto x ev ts)
      × (run_chain step all (suc (suc depth)) policy_name m ≡ falls m')

  pub policy_admits :
      (puts : PutsBigEndian lib) (chain_name : Bytes) (chain policy_chain : Chain)
      (networks : List Bytes) (pod_info : PodInfo) (ts : List RuleParts) (m depth : ℕ)
      (cmds all : Transcript)
      → Ready ⦃lib = lib⦄ chain_name policy_chain 0 ts
      → AllDiffer (chain.name ∷ policy_chain.name ∷ names_of ts)
      → PodWritten ⦃lib = lib⦄ chain policy_chain networks pod_info ts cmds
      → All (Same lib step sets l4proto x ev all cmds) (policy_chain.name ∷ names_of ts)
      → All (SetHolds lib sets) cmds
      → x ≤ 65535
      → m < word
      → (is_empty ts ≡ true → both_bits m ≡ false)
      → PolicyEnd all policy_chain.name ts m depth
  policy_admits puts chain_name chain policy_chain networks pod_info ts m depth cmds all ready
        ((d1, d), differ_) (ec, rc, e, (adds, others), w) (same_p, same) hold k lt no_rule =
      let c = chain.name in
      let p = policy_chain.name in
      let later = λ (n : Bytes) (differs : c ≢ n).
        ap (rules_after n []) e
        ∙ rules_after-append n [] ec rc
        ∙ ap (λ l. rules_after n l rc) (others n (λ j. differs (sym j)) []) in
      let rules_same =
        All-zip (Same lib step sets l4proto x ev all cmds) (λ n. c ≢ n)
          (Same lib step sets l4proto x ev all rc) (names_of ts)
          (λ n f differs. f ∙ later n differs) same d in
      let (_, behind_chain) = subst (All (SetHolds lib sets)) e hold in
      let (_, hold_rc) = All-split (SetHolds lib sets) ec rc behind_chain in
      let (m', lt', iff, run) =
        list_admits lib step sets l4proto x ev puts chain_name policy_chain 0 ts rc all m depth
          ready w differ_ rules_same hold_rc k lt no_rule in
      let on_policy =
        same_p
        ∙ later p d1
        ∙ on_list_chain lib step sets l4proto x ev policy_chain ts rc w differ_ [] in
      (m', lt', iff, ap (λ l. run_rules step (run_chain step all (suc depth)) l m) on_policy ∙ run)

  -- the entry chain gets the jumps
  pub on_entry_chain :
      (chain policy_chain : Chain) (networks : List Bytes) (pod_info : PodInfo)
      (ts : List RuleParts) (cmds : Transcript)
      → AllDiffer (chain.name ∷ policy_chain.name ∷ names_of ts)
      → PodWritten ⦃lib = lib⦄ chain policy_chain networks pod_info ts cmds
      → Adds chain.name
          (entry_rules ⦃lib = lib⦄ chain.name policy_chain.name networks pod_info.interfaces)
          cmds
  on_entry_chain chain policy_chain networks pod_info ts cmds ((d1, d), differ_)
        (ec, rc, e, (adds, others), w) =
      λ rules.
        ap (rules_after chain.name rules) e
        ∙ rules_after-append chain.name rules ec rc
        ∙ ap (λ l. rules_after chain.name l rc) (adds rules)
        ∙ all_elsewhere lib step sets l4proto x ev chain.name policy_chain ts rc w (d1, d) differ_ _

  pub pod_elsewhere :
      (name : Bytes) (chain policy_chain : Chain) (networks : List Bytes) (pod_info : PodInfo)
      (ts : List RuleParts) (cmds : Transcript)
      → NotAmong name (chain.name ∷ policy_chain.name ∷ names_of ts)
      → AllDiffer (chain.name ∷ policy_chain.name ∷ names_of ts)
      → PodWritten ⦃lib = lib⦄ chain policy_chain networks pod_info ts cmds
      → Untouched name cmds
  pod_elsewhere name chain policy_chain networks pod_info ts cmds (n0, ns) (_, differ_)
        (ec, rc, e, (adds, others), w) =
      λ rules.
        ap (rules_after name rules) e
        ∙ rules_after-append name rules ec rc
        ∙ ap (λ l. rules_after name l rc) (others name n0 rules)
        ∙ all_elsewhere lib step sets l4proto x ev name policy_chain ts rc w ns differ_ rules
