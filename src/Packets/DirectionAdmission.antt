-- ===== src/Packets/DirectionAdmission.antt =====
-- What the policies of one direction do to a packet on the entry chain.
use mathlib.Core.List.{append_assoc}
use mathlib.Core.Path.{subst}
use multi_networkpolicy_nfta.Packets.{Vm, Step, word, Evaluates}
use multi_networkpolicy_nfta.Packets.Marks.{both_bits}
use multi_networkpolicy_nfta.Packets.Rules.{run_check_mark}
use multi_networkpolicy_nfta.Packets.Chain.{falls, run_rules, run_chain}
use multi_networkpolicy_nfta.Packets.PortChain.{SetHolds}
use multi_networkpolicy_nfta.Nft.{Table, Chain, Expr, add_rule, Transcript, Libraries}
use multi_networkpolicy_nfta.Ports.Interval.{PutsBigEndian}
use multi_networkpolicy_nfta.Fields.{check_mark_exprs}
use multi_networkpolicy_nfta.Cluster.{PodInfo}
use multi_networkpolicy_nfta.Packets.PortMatch.{Matches}
use multi_networkpolicy_nfta.PolicyRules.{policy_chain_name_of}
use multi_networkpolicy_nfta.Packets.ListSends.{RuleParts}
use multi_networkpolicy_nfta.Packets.ListChains.{AllDiffer}
use multi_networkpolicy_nfta.Packets.ListAdmission.{Same, SomeMatches}
use multi_networkpolicy_nfta.Packets.PodSends.{entry_rules}
use multi_networkpolicy_nfta.Packets.PolicyAdmission.{policy_admits}
use multi_networkpolicy_nfta.Packets.Apart.{AllDiffer-split}
use multi_networkpolicy_nfta.Packets.DirectionSends.{
  PolicyParts, own_names, all_names, ReadyPolicy, DirectionWritten,
}
use multi_networkpolicy_nfta.Packets.Entry.{LoadsInterface, Concerns, Judges, run_entry_rules}
use multi_networkpolicy_nfta.Packets.DirectionChains.{
  direction_rules, later_policies-Same, first_policy-Same,
}
use multi_networkpolicy_nfta.Base.{
  Bool-cases, is_empty, All, Any, All-split, Bytes, ℕ, suc, ◌≤◌, ◌<◌, ◌≡◌, refl, ap, ◌∙◌, ◌≢◌, ◌⊎◌,
  inl, inr, Bool, true, false, List, [], ◌∷◌, ◌++◌, arith,
}

module _ (lib : Libraries) (step : Expr → Vm → Step) (sets : Bytes → Bytes → Bool) (l4proto : Bytes)
    (x : ℕ) (ev : Evaluates lib step sets l4proto (lib.big_uint16 x)) (puts : PutsBigEndian lib)
    (entry : Chain) (interface : Bytes) (li : LoadsInterface step entry.name interface)
    (pod_info : PodInfo) where
  no_rule_guard :
      (ts : List RuleParts) (m : ℕ)
      → (both_bits m ≡ true → SomeMatches lib step sets l4proto x ev ts)
      → is_empty ts ≡ true
      → both_bits m ≡ false
  no_rule_guard [] m guard e = elim (Bool-cases (both_bits m)) [
    | inl both ↦ absurd (guard both)
    | inr not_both ↦ not_both
  ]
  no_rule_guard (t ∷ ts) m guard e = absurd (ground (arith, e))

  -- some policy is for the packet's interface, and the ports of one of its rules match
  abbrev pub Admitted : List PolicyParts → Type 0
  Admitted qs =
      Any
        (λ q.
          Concerns interface q.policy.policy_networks pod_info.interfaces
          × Any (λ t. Matches t.ports l4proto x) q.rules)
        qs

  -- the packet leaves the chain with both bits where it is admitted, or else goes on
  abbrev pub DirectionEnd : Transcript → List PolicyParts → ℕ → ℕ → Type 0
  DirectionEnd all qs m depth =
      let run = run_rules step (run_chain step all (suc (suc depth))) in
      let rules = direction_rules ⦃lib = lib⦄ entry.name pod_info.interfaces qs in
      (Admitted qs
        × (m' : ℕ) × (both_bits m' ≡ true)
        × ((more : List (List Expr)) → run (rules ++ more) m ≡ falls m'))
      ⊎ ((Admitted qs → ⊥)
          × (m' : ℕ) × ((more : List (List Expr)) → run (rules ++ more) m ≡ run more m'))

  pub direction_admits :
      (table : Table) (qs : List PolicyParts) (cmds all : Transcript) (m depth : ℕ)
      → All (ReadyPolicy ⦃lib = lib⦄ entry table) qs
      → DirectionWritten ⦃lib = lib⦄ entry pod_info qs cmds
      → AllDiffer (entry.name ∷ all_names qs)
      → All (Same lib step sets l4proto x ev all cmds) (all_names qs)
      → All (SetHolds lib sets) cmds
      → x ≤ 65535
      → m < word
      → both_bits m ≡ false
      → DirectionEnd all qs m depth
  direction_admits table [] cmds all m depth ready e differ_ same hold k lt not_both =
      inr ((λ h. h), m, λ more. refl)
  direction_admits table (q ∷ qs) cmds all m depth ((_, _, rules_ready), ready)
        (c, r, cs, e, on_entry, is_check, w, ws) (d, differ_) same hold k lt not_both =
      let jump_to = run_chain step all (suc (suc depth)) in
      let hit = SomeMatches lib step sets l4proto x ev q.rules in
      let (d_own, d_rest) = All-split (λ n. entry.name ≢ n) (own_names q) (all_names qs) d in
      let (a_own, a_rest, _) = AllDiffer-split (own_names q) (all_names qs) differ_ in
      let (same_own, same_rest) =
        All-split (Same lib step sets l4proto x ev all cmds) (own_names q) (all_names qs) same in
      let own_same =
        first_policy-Same lib step sets l4proto x ev entry pod_info q qs c cs cmds all r ws on_entry
          e (d, differ_) same_own in
      let later_same_ =
        later_policies-Same lib step sets l4proto x ev entry pod_info q qs c cs cmds all r w
          on_entry e (d, differ_) same_rest in
      let (hold_c, (_, hold_cs)) =
        All-split (SetHolds lib sets) c (add_rule r ∷ cs)
          (subst (All (SetHolds lib sets)) e hold) in
      let judges : Judges lib step sets l4proto x ev entry.name interface li jump_to q.chain.name
          hit =
        λ m1 lt1 guard.
          policy_admits lib step sets l4proto x ev puts
            (policy_chain_name_of entry.name q.policy.policy) entry q.chain q.policy.policy_networks
            pod_info q.rules m1 depth c all rules_ready (d_own, a_own) w own_same hold_c k lt1
            (no_rule_guard q.rules m1 guard) in
      let (m', lt', iff, runs) =
        run_entry_rules lib step sets l4proto x ev entry.name interface li jump_to q.chain.name
          q.policy.policy_networks pod_info.interfaces hit m judges lt
          (λ both. absurd (ground (arith, both, not_both))) in
      let checks = run_check_mark lib step sets l4proto (lib.big_uint16 x) ev m' lt' in
      let jumps =
        entry_rules ⦃lib = lib⦄ entry.name q.chain.name q.policy.policy_networks
          pod_info.interfaces in
      let rest = direction_rules ⦃lib = lib⦄ entry.name pod_info.interfaces qs in
      let to_check = λ (more : List (List Expr)).
        ap (λ l. run_rules step jump_to l m)
          (append_assoc jumps (check_mark_exprs ⦃lib = lib⦄ ∷ rest) more)
        ∙ runs (check_mark_exprs ⦃lib = lib⦄ ∷ (rest ++ more)) in
      elim (Bool-cases (both_bits m')) [
        | inl both ↦ inl (
          inl (elim (iff.0 both) [ inl old ↦ absurd (ground (arith, old, not_both)) | inr p ↦ p ]),
          m',
          both,
          λ more. to_check more ∙ rw (checks, both, run_rules) refl,
        )
        | inr left_over ↦
            let next_rules : (more : List (List Expr))
                → run_rules step jump_to ((jumps ++ (check_mark_exprs ⦃lib = lib⦄ ∷ rest)) ++ more)
                    m
                  ≡ run_rules step jump_to (rest ++ more) m' =
              λ more. to_check more ∙ rw (checks, left_over, run_rules) refl in
            elim (direction_admits table qs cs all m' depth ready ws (d_rest, a_rest) later_same_
              hold_cs k lt' left_over) [
                | inl found ↦
                    let (admitted, m'', both, runs') = found in
                    inl (inr admitted, m'', both, λ more. next_rules more ∙ runs' more)
                | inr missed ↦
                    let (refused, m'', runs') = missed in
                    inr (
                      λ h. elim h [
                        | inl p ↦ absurd (ground (arith, iff.1 (inr p), left_over))
                        | inr others ↦ refused others
                      ],
                      m'',
                      λ more. next_rules more ∙ runs' more,
                    )
              ]
      ]
