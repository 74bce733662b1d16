-- ===== src/Packets/DirectionVerdict.antt =====
-- The verdict of the policies of one direction on a packet.
use mathlib.Core.Path.{subst}
use multi_networkpolicy_nfta.Packets.{Vm, Step, word, Evaluates, run_exprs}
use multi_networkpolicy_nfta.Packets.Marks.{both_bits}
use multi_networkpolicy_nfta.Packets.Chain.{
  rules_after, ChainEnd, falls, stops, run_rules, rules_after-append, run_chain,
}
use multi_networkpolicy_nfta.Packets.Empty.{
  EmptyKernel, Sends, Sends-bind, Sends-none, update_rule-Sends,
}
use multi_networkpolicy_nfta.Packets.PortChain.{SetHolds}
use multi_networkpolicy_nfta.Nft.{
  Chain, drop, Expr, verdict, counter, Rule, add_rule, Transcript, Libraries, NftState,
}
use multi_networkpolicy_nfta.Ports.Interval.{PutsBigEndian}
use multi_networkpolicy_nfta.Fields.{new_rule}
use multi_networkpolicy_nfta.Rules.{update_rule}
use multi_networkpolicy_nfta.Cluster.{PodInfo, PolicyDeps}
use multi_networkpolicy_nfta.Packets.PortRules.{rule_elsewhere}
use multi_networkpolicy_nfta.Packets.PortCall.{new_commands, Sends-new_commands, Sends-sent}
use multi_networkpolicy_nfta.Marks.{apply_drop_remaining}
use multi_networkpolicy_nfta.Packets.Adds.{Adds-append, Adds-here}
use multi_networkpolicy_nfta.Packets.ListChains.{AllDiffer}
use multi_networkpolicy_nfta.Packets.ListAdmission.{Same}
use multi_networkpolicy_nfta.Packets.PodSends.{IsEntry}
use multi_networkpolicy_nfta.Packets.DirectionSends.{
  PolicyParts, policies_of, all_names, ReadyPolicy, DirectionWritten, apply_policies-Sends,
}
use multi_networkpolicy_nfta.Render.{apply_policies, apply_direction}
use multi_networkpolicy_nfta.Packets.Entry.{LoadsInterface}
use multi_networkpolicy_nfta.Packets.DirectionChains.{direction_rules, on_direction_chain}
use multi_networkpolicy_nfta.Packets.DirectionAdmission.{Admitted, direction_admits}
use multi_networkpolicy_nfta.Base.{
  All, All-zip, All-split, Bytes, codes, ok, done, ℕ, suc, ◌≤◌, ◌<◌, ◌≡◌, refl, sym, ap, ◌∙◌, ◌≢◌,
  ◌⊎◌, inl, inr, Bool, true, false, List, [], ◌∷◌, ◌++◌,
}

-- the last rule of an entry chain
abbrev pub drop_exprs : List Expr
drop_exprs = counter 0 0 ∷ verdict drop [] ∷ []

module _ ⦃lib : Libraries⦄ where
  abbrev drop_rule : Chain → Rule
  drop_rule entry = new_rule entry.table entry (codes "drop-remaining") drop_exprs

  drop_remaining-Sends :
      (empty : EmptyKernel lib) (entry : Chain) (force : Bool) (s : NftState)
      → Sends (apply_drop_remaining entry force) s tt (add_rule (drop_rule entry) ∷ [])
  unfolding apply_drop_remaining
  drop_remaining-Sends empty entry force s =
      let first = update_rule-Sends empty (drop_rule entry) add_rule force s in
      Sends-bind (update_rule (drop_rule entry) add_rule force) (λ _. done) s true tt
        (add_rule (drop_rule entry) ∷ []) [] first (Sends-none tt first.0)

  apply_direction-Sends :
      (empty : EmptyKernel lib) (deps : PolicyDeps) (entry : Chain) (pod_info : PodInfo)
      (q : PolicyParts) (qs : List PolicyParts) (s : NftState)
      → IsEntry entry.name
      → All (ReadyPolicy entry s.filter) (q ∷ qs)
      → (cmds : Transcript) × Sends
          (apply_direction deps entry pod_info (policies_of (q ∷ qs)))
          s
          tt
          (cmds ++ (add_rule (drop_rule entry) ∷ []))
        × DirectionWritten entry pod_info (q ∷ qs) cmds
  unfolding apply_direction
  apply_direction-Sends empty deps entry pod_info q qs s is_entry ready =
      let (b, cmds, s1, w) =
        apply_policies-Sends empty deps entry pod_info (q ∷ qs) false s is_entry ready in
      (
        cmds,
        Sends-bind (apply_policies deps entry pod_info (policies_of (q ∷ qs)) false)
            (λ force. apply_drop_remaining entry force) s b tt cmds
            (add_rule (drop_rule entry) ∷ []) s1 (drop_remaining-Sends empty entry b s1.0),
        w,
      )

module _ (lib : Libraries) (step : Expr → Vm → Step) (sets : Bytes → Bytes → Bool) (l4proto : Bytes)
    (x : ℕ) (ev : Evaluates lib step sets l4proto (lib.big_uint16 x)) where
  run_drop :
      (jump_to : Bytes → ℕ → ChainEnd) (m : ℕ)
      → run_rules step jump_to (drop_exprs ∷ []) m ≡ stops drop
  run_drop jump_to m =
      let vm : Vm = record { register = []; mark = m } in
      rw (ev.counts vm 0 0, run_rules, run_exprs)
        (rw (ev.gives_verdict vm drop [], run_rules, run_exprs) refl)

  -- the rules before leave a packet to the rules behind, with another mark
  abbrev pub LeavesTo : Transcript → ℕ → List (List Expr) → ℕ → ℕ → Type 0
  LeavesTo all depth before arriving m =
      (more : List (List Expr))
      → run_rules step (run_chain step all (suc (suc depth))) (before ++ more) arriving
        ≡ run_rules step (run_chain step all (suc (suc depth))) more m

  -- a packet on the entry chain that the commands have filled: `admitted` decides
  abbrev Decision : Type 0 → Bytes → ℕ → ℕ → Transcript → Type 0
  Decision admitted name m depth cmds =
      (admitted
        × (m' : ℕ) × (both_bits m' ≡ true)
        × (run_chain step cmds (suc (suc (suc depth))) name m ≡ falls m'))
      ⊎ ((admitted → ⊥) × (run_chain step cmds (suc (suc (suc depth))) name m ≡ stops drop))

  -- applyDirection for policies whose rules have no peers, under the chain of either direction, on a
  -- kernel that shows nothing of them yet: the calls succeed, and decide about each packet that the
  -- rules before them on the entry chain, such as the jump to the common chain, leave to them
  -- without both bits of the mark. Where some policy is for the packet's interface, which is that of
  -- a network of the policy, and the ports of one of its rules match the packet, the packet passes
  -- with both bits; every other one of these packets is dropped. The ports of a rule match where one
  -- of them has the packet's protocol, TCP where it names none, and admits its destination port, and
  -- also where each of them names neither a port nor a protocol, or there is none: then packets of
  -- every protocol match, where the CRD has TCP for a port without a protocol. The names of all
  -- chains differ, the chains of the policies are new, the sets are those of the kernel after these
  -- writes, the ports are all accepted, the direction has a policy, and the kernel follows jumps of
  -- depth three or more.
  pub apply_direction-decides :
      (empty : EmptyKernel lib) (puts : PutsBigEndian lib) (deps : PolicyDeps) (entry : Chain)
      (interface : Bytes) (li : LoadsInterface step entry.name interface) (pod_info : PodInfo)
      (q : PolicyParts) (qs : List PolicyParts) (s : NftState) (arriving m depth : ℕ)
      → IsEntry entry.name
      → All (ReadyPolicy ⦃lib = lib⦄ entry s.filter) (q ∷ qs)
      → AllDiffer (entry.name ∷ all_names (q ∷ qs))
      → All (λ n. rules_after n [] s.sent ≡ []) (all_names (q ∷ qs))
      → All
          (SetHolds lib sets)
          (new_commands (apply_direction ⦃lib = lib⦄ deps entry pod_info (policies_of (q ∷ qs))) s)
      → x ≤ 65535
      → m < word
      → both_bits m ≡ false
      → LeavesTo
          (apply_direction ⦃lib = lib⦄ deps entry pod_info (policies_of (q ∷ qs)) s).1.sent
          depth
          (rules_after entry.name [] s.sent)
          arriving
          m
      → let code = apply_direction ⦃lib = lib⦄ deps entry pod_info (policies_of (q ∷ qs)) in
        let verdict_on =
          run_chain step (code s).1.sent (suc (suc (suc depth))) entry.name arriving in
        let admitted =
          Admitted lib step sets l4proto x ev puts entry interface li pod_info (q ∷ qs) in
        ((code s).0 ≡ ok tt)
        × ((admitted × (m' : ℕ) × (both_bits m' ≡ true) × (verdict_on ≡ falls m'))
            ⊎ ((admitted → ⊥) × (verdict_on ≡ stops drop)))
  apply_direction-decides empty puts deps entry interface li pod_info q qs s arriving m depth
        is_entry ready differ_ new_chains hold k lt not_both leaves =
      let code = apply_direction ⦃lib = lib⦄ deps entry pod_info (policies_of (q ∷ qs)) in
      let (cs, sends, w) =
        apply_direction-Sends ⦃lib = lib⦄ empty deps entry pod_info q qs s is_entry ready in
      let last' = drop_rule ⦃lib = lib⦄ entry in
      let added = cs ++ (add_rule last' ∷ []) in
      let all = s.sent ++ added in
      let (done_, sent) = Sends-new_commands code s tt added sends in
      let full = Sends-sent code s tt added sends in
      let names = all_names (q ∷ qs) in
      let not_entry = λ (n : Bytes). entry.name ≢ n in
      let same =
        All-zip not_entry (λ n. rules_after n [] s.sent ≡ [])
          (Same lib step sets l4proto x ev all cs) names
          (λ n differs new_one.
            rules_after-append n [] s.sent added
            ∙ ap (λ l. rules_after n l added) new_one
            ∙ rules_after-append n [] cs (add_rule last' ∷ [])
            ∙ rule_elsewhere n last' entry.name refl (λ j. differs (sym j)) (rules_after n [] cs))
          differ_.0 new_chains in
      let (hold_cs, _) =
        All-split (SetHolds lib sets) cs (add_rule last' ∷ [])
          (subst (All (SetHolds lib sets)) sent hold) in
      let rules = direction_rules ⦃lib = lib⦄ entry.name pod_info.interfaces (q ∷ qs) in
      let before = rules_after entry.name [] s.sent in
      let on_entry =
        rules_after-append entry.name [] s.sent added
        ∙ Adds-append entry.name rules (drop_exprs ∷ []) cs (add_rule last' ∷ [])
            (on_direction_chain lib step sets l4proto x ev entry pod_info (q ∷ qs) cs w differ_)
            (Adds-here entry.name last' drop_exprs refl refl) before in
      let jump_to = run_chain step all (suc (suc depth)) in
      let left_over =
        subst (λ u. LeavesTo u depth before arriving m) full leaves (rules ++ (drop_exprs ∷ [])) in
      let runs = ap (λ l. run_rules step jump_to l arriving) on_entry ∙ left_over in
      let admitted =
        Admitted lib step sets l4proto x ev puts entry interface li pod_info (q ∷ qs) in
      let decision : Decision admitted entry.name arriving depth all =
        elim (direction_admits lib step sets l4proto x ev puts entry interface li pod_info s.filter
          (q ∷ qs) cs all m depth ready w differ_ same hold_cs k lt not_both) [
            | inl found ↦
                let (hit, m', both, run) = found in
                inl (hit, m', both, runs ∙ run (drop_exprs ∷ []))
            | inr missed ↦
                let (refused, m', run) = missed in
                inr (refused, runs ∙ run (drop_exprs ∷ []) ∙ run_drop jump_to m')
          ] in
      (done_, subst (Decision admitted entry.name arriving depth) (sym full) decision)
