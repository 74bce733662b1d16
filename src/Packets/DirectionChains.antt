-- ===== src/Packets/DirectionChains.antt =====
-- Which rules the chains get from the policies of one direction.
use mathlib.Core.List.{append-nil}
use mathlib.Core.Path.{subst}
use multi_networkpolicy_nfta.Packets.{Vm, Step, Evaluates}
use multi_networkpolicy_nfta.Packets.Chain.{rules_after, rules_after-append}
use multi_networkpolicy_nfta.Nft.{Chain, Expr, Rule, add_rule, Transcript, Libraries}
use multi_networkpolicy_nfta.Fields.{check_mark_exprs}
use multi_networkpolicy_nfta.Cluster.{InterfaceInfo, PodInfo}
use multi_networkpolicy_nfta.Packets.PortRules.{Untouched, rule_elsewhere}
use multi_networkpolicy_nfta.Packets.Adds.{Adds, Adds-append, Adds-here}
use multi_networkpolicy_nfta.Packets.ListChains.{NotAmong, AllDiffer}
use multi_networkpolicy_nfta.Packets.ListAdmission.{Same}
use multi_networkpolicy_nfta.Packets.PodSends.{entry_rules}
use multi_networkpolicy_nfta.Packets.PolicyAdmission.{on_entry_chain, pod_elsewhere}
use multi_networkpolicy_nfta.Packets.Apart.{AllDiffer-split, Apart-sym}
use multi_networkpolicy_nfta.Packets.DirectionSends.{
  PolicyParts, own_names, all_names, PolicyWritten, DirectionWritten,
}
use multi_networkpolicy_nfta.Base.{
  All, All-zip, All-split, Bytes, ℕ, ◌≡◌, sym, ap, ◌∙◌, ◌≢◌, Bool, List, [], ◌∷◌, ◌++◌,
}

module _ ⦃lib : Libraries⦄ where
  -- the jumps of each policy, with a check of the mark behind
  abbrev pub direction_rules : Bytes → List InterfaceInfo → List PolicyParts → List (List Expr)
  direction_rules entry_name intfs [] = []
  direction_rules entry_name intfs (q ∷ qs) =
      entry_rules entry_name q.chain.name q.policy.policy_networks intfs
      ++ (check_mark_exprs ∷ direction_rules entry_name intfs qs)

module _ (lib : Libraries) (step : Expr → Vm → Step) (sets : Bytes → Bytes → Bool) (l4proto : Bytes)
    (x : ℕ) (ev : Evaluates lib step sets l4proto (lib.big_uint16 x)) where
  -- the writes for one policy and of the check behind it
  policy_elsewhere :
      (name : Bytes) (entry : Chain) (pod_info : PodInfo) (q : PolicyParts) (c cs : Transcript)
      (r : Rule) (rules : List (List Expr))
      → PolicyWritten ⦃lib = lib⦄ entry pod_info q c
      → r.chain.name ≡ entry.name
      → NotAmong name (entry.name ∷ own_names q)
      → AllDiffer (entry.name ∷ own_names q)
      → rules_after name rules (c ++ (add_rule r ∷ cs)) ≡ rules_after name rules cs
  policy_elsewhere name entry pod_info q c cs r rules w on_entry ns differ_ =
      rules_after-append name rules c (add_rule r ∷ cs)
      ∙ ap (λ l. rules_after name l (add_rule r ∷ cs))
          (pod_elsewhere lib step sets l4proto x ev name entry q.chain q.policy.policy_networks
            pod_info q.rules c ns differ_ w rules)
      ∙ ap (λ l. rules_after name l cs) (rule_elsewhere name r entry.name on_entry ns.0 rules)

  pub direction_elsewhere :
      (name : Bytes) (entry : Chain) (pod_info : PodInfo) (qs : List PolicyParts)
      (cmds : Transcript)
      → DirectionWritten ⦃lib = lib⦄ entry pod_info qs cmds
      → NotAmong name (entry.name ∷ all_names qs)
      → AllDiffer (entry.name ∷ all_names qs)
      → Untouched name cmds
  direction_elsewhere name entry pod_info [] cmds e ns differ_ =
      λ rules. ap (rules_after name rules) e
  direction_elsewhere name entry pod_info (q ∷ qs) cmds (c, r, cs, e, on_entry, is_check, w, ws)
        (n0, ns) (d, differ_) =
      let (n_own, n_rest) = All-split (λ k. name ≢ k) (own_names q) (all_names qs) ns in
      let (d_own, d_rest) = All-split (λ k. entry.name ≢ k) (own_names q) (all_names qs) d in
      let (a_own, a_rest, _) = AllDiffer-split (own_names q) (all_names qs) differ_ in
      λ rules.
        ap (rules_after name rules) e
        ∙ policy_elsewhere name entry pod_info q c cs r rules w on_entry (n0, n_own) (d_own, a_own)
        ∙ direction_elsewhere name entry pod_info qs cs ws (n0, n_rest) (d_rest, a_rest) rules

  pub on_direction_chain :
      (entry : Chain) (pod_info : PodInfo) (qs : List PolicyParts) (cmds : Transcript)
      → DirectionWritten ⦃lib = lib⦄ entry pod_info qs cmds
      → AllDiffer (entry.name ∷ all_names qs)
      → Adds entry.name (direction_rules ⦃lib = lib⦄ entry.name pod_info.interfaces qs) cmds
  on_direction_chain entry pod_info [] cmds e differ_ =
      λ rules. ap (rules_after entry.name rules) e ∙ sym (append-nil rules)
  on_direction_chain entry pod_info (q ∷ qs) cmds (c, r, cs, e, on_entry, is_check, w, ws)
        (d, differ_) =
      let (d_own, d_rest) = All-split (λ k. entry.name ≢ k) (own_names q) (all_names qs) d in
      let (a_own, a_rest, _) = AllDiffer-split (own_names q) (all_names qs) differ_ in
      let check_ = check_mark_exprs ⦃lib = lib⦄ in
      let rest = direction_rules ⦃lib = lib⦄ entry.name pod_info.interfaces qs in
      subst (Adds entry.name (direction_rules ⦃lib = lib⦄ entry.name pod_info.interfaces (q ∷ qs)))
        (sym e)
        (Adds-append entry.name
          (entry_rules ⦃lib = lib⦄ entry.name q.chain.name q.policy.policy_networks
            pod_info.interfaces)
          (check_ ∷ rest) c (add_rule r ∷ cs)
          (on_entry_chain lib step sets l4proto x ev entry q.chain q.policy.policy_networks pod_info
            q.rules c (d_own, a_own) w)
          (Adds-append entry.name (check_ ∷ []) rest (add_rule r ∷ []) cs
            (Adds-here entry.name r check_ on_entry is_check)
            (on_direction_chain entry pod_info qs cs ws (d_rest, a_rest))))

  -- the chains of the later policies are left alone by the first one
  pub later_policies-Same :
      (entry : Chain) (pod_info : PodInfo) (q : PolicyParts) (qs : List PolicyParts)
      (c cs cmds all : Transcript) (r : Rule)
      → PolicyWritten ⦃lib = lib⦄ entry pod_info q c
      → r.chain.name ≡ entry.name
      → cmds ≡ c ++ (add_rule r ∷ cs)
      → AllDiffer (entry.name ∷ all_names (q ∷ qs))
      → All (Same lib step sets l4proto x ev all cmds) (all_names qs)
      → All (Same lib step sets l4proto x ev all cs) (all_names qs)
  later_policies-Same entry pod_info q qs c cs cmds all r w on_entry e (d, differ_) same =
      let (d_own, d_rest) = All-split (λ k. entry.name ≢ k) (own_names q) (all_names qs) d in
      let (a_own, a_rest, apart) = AllDiffer-split (own_names q) (all_names qs) differ_ in
      let own_apart = Apart-sym (own_names q) (all_names qs) apart in
      let not_entry =
        All-zip (λ n. entry.name ≢ n) (λ n. NotAmong n (own_names q))
          (λ n. NotAmong n (entry.name ∷ own_names q)) (all_names qs)
          (λ n differs others. ((λ j. differs (sym j)), others)) d_rest own_apart in
      All-zip (Same lib step sets l4proto x ev all cmds)
        (λ n. NotAmong n (entry.name ∷ own_names q)) (Same lib step sets l4proto x ev all cs)
        (all_names qs)
        (λ n f ns.
          f
          ∙ ap (rules_after n []) e
          ∙ policy_elsewhere n entry pod_info q c cs r [] w on_entry ns (d_own, a_own))
        same not_entry

  -- and those of the first one by the later ones
  pub first_policy-Same :
      (entry : Chain) (pod_info : PodInfo) (q : PolicyParts) (qs : List PolicyParts)
      (c cs cmds all : Transcript) (r : Rule)
      → DirectionWritten ⦃lib = lib⦄ entry pod_info qs cs
      → r.chain.name ≡ entry.name
      → cmds ≡ c ++ (add_rule r ∷ cs)
      → AllDiffer (entry.name ∷ all_names (q ∷ qs))
      → All (Same lib step sets l4proto x ev all cmds) (own_names q)
      → All (Same lib step sets l4proto x ev all c) (own_names q)
  first_policy-Same entry pod_info q qs c cs cmds all r ws on_entry e (d, differ_) same =
      let (d_own, d_rest) = All-split (λ k. entry.name ≢ k) (own_names q) (all_names qs) d in
      let (a_own, a_rest, apart) = AllDiffer-split (own_names q) (all_names qs) differ_ in
      let not_later =
        All-zip (λ n. entry.name ≢ n) (λ n. NotAmong n (all_names qs))
          (λ n. NotAmong n (entry.name ∷ all_names qs)) (own_names q)
          (λ n differs others. ((λ j. differs (sym j)), others)) d_own apart in
      All-zip (Same lib step sets l4proto x ev all cmds)
        (λ n. NotAmong n (entry.name ∷ all_names qs)) (Same lib step sets l4proto x ev all c)
        (own_names q)
        (λ n f ns.
          f
          ∙ ap (rules_after n []) e
          ∙ rules_after-append n [] c (add_rule r ∷ cs)
          ∙ ap (λ l. rules_after n l cs)
              (rule_elsewhere n r entry.name on_entry ns.0 (rules_after n [] c))
          ∙ direction_elsewhere n entry pod_info qs cs ws ns (d_rest, a_rest) (rules_after n [] c))
        same not_later
