-- ===== src/Packets/ListAdmission.antt =====
-- What the rules of a list, without peers, do to a packet on the policy's chain.
use mathlib.Core.Path.{subst}
use multi_networkpolicy_nfta.Packets.{Vm, Step, word, Evaluates}
use multi_networkpolicy_nfta.Packets.Marks.{both_bits}
use multi_networkpolicy_nfta.Packets.Chain.{
  rules_after, falls, run_rules, rules_after-append, run_chain,
}
use multi_networkpolicy_nfta.Packets.PortChain.{SetHolds}
use multi_networkpolicy_nfta.Nft.{Chain, Expr, Transcript, Libraries}
use multi_networkpolicy_nfta.Ports.Union.{collect_ports-InSome}
use multi_networkpolicy_nfta.Ports.Interval.{PutsBigEndian}
use multi_networkpolicy_nfta.Packets.PortMatch.{Matches}
use multi_networkpolicy_nfta.Packets.Admitted.{AnyHit-iff}
use multi_networkpolicy_nfta.Packets.PortCall.{no_set_at_all, no_set_at_all-blank}
use multi_networkpolicy_nfta.Packets.Admission.{commands_admit}
use multi_networkpolicy_nfta.Packets.ListSends.{RuleParts, Ready, OneWritten, AllWritten}
use multi_networkpolicy_nfta.Packets.ListChains.{
  names_of, NotAmong, AllDiffer, list_rules, one_elsewhere, all_elsewhere,
}
use multi_networkpolicy_nfta.Base.{
  Bool-cases, is_empty, All, Any, All-split, Bytes, ℕ, suc, ◌≤◌, ◌<◌, ◌≡◌, refl, sym, ap, ◌∙◌, ◌↔◌,
  inl, inr, Bool, true, false, List, [], ◌∷◌, ◌++◌, arith,
}

module _ (lib : Libraries) (step : Expr → Vm → Step) (sets : Bytes → Bytes → Bool) (l4proto : Bytes)
    (x : ℕ) (ev : Evaluates lib step sets l4proto (lib.big_uint16 x)) where
  -- a chain has got the same from two lists of writes
  abbrev pub Same : Transcript → Transcript → Bytes → Type 0
  Same all cmds name = rules_after name [] all ≡ rules_after name [] cmds

  -- the first rule's writes do not touch the chains of the other rules
  later-Same :
      (chain : Chain) (t : RuleParts) (ns : List Bytes) (c cs all : Transcript)
      → OneWritten ⦃lib = lib⦄ chain t c
      → AllDiffer (chain.name ∷ t.port_chain.name ∷ t.peers_chain.name ∷ ns)
      → All (Same all (c ++ cs)) ns
      → All (Same all cs) ns
  later-Same chain t [] c cs all w differ_ same = tt
  later-Same chain t (n ∷ ns) c cs all w
        ((d1, (d2, (d4, d))), ((d3, (d5, dp)), ((d6, dq), (_, differ_)))) (e, same) =
      (
        e
            ∙ rules_after-append n [] c cs
            ∙ ap (λ l. rules_after n l cs)
                (one_elsewhere lib step sets l4proto x ev n chain t c w
                  ((λ k. d4 (sym k)), ((λ k. d5 (sym k)), ((λ k. d6 (sym k)), tt)))
                  ((d1, (d2, tt)), ((d3, tt), (tt, tt))) []),
        later-Same chain t ns c cs all w ((d1, (d2, d)), ((d3, dp), (dq, differ_))) same,
      )

  -- the run ends with both bits iff the ports of some rule match
  abbrev pub SomeMatches : List RuleParts → Type 0
  SomeMatches ts = Any (λ t. Matches t.ports l4proto x) ts

  abbrev pub ListEnd : Transcript → List RuleParts → ℕ → ℕ → Type 0
  ListEnd all ts m depth =
      (m' : ℕ) × (m' < word)
      × ((both_bits m' ≡ true) ↔ SomeMatches ts)
      × (run_rules step (run_chain step all (suc depth)) (list_rules ⦃lib = lib⦄ ts) m ≡ falls m')

  pub list_admits :
      (puts : PutsBigEndian lib) (chain_name : Bytes) (chain : Chain) (i : ℕ) (ts : List RuleParts)
      (cmds all : Transcript) (m depth : ℕ)
      → Ready ⦃lib = lib⦄ chain_name chain i ts
      → AllWritten ⦃lib = lib⦄ chain ts cmds
      → AllDiffer (chain.name ∷ names_of ts)
      → All (Same all cmds) (names_of ts)
      → All (SetHolds lib sets) cmds
      → x ≤ 65535
      → m < word
      → (is_empty ts ≡ true → both_bits m ≡ false)
      → ListEnd all ts m depth
  list_admits puts chain_name chain i [] cmds all m depth ready e differ_ same hold k lt no_rule =
      (m, lt, ((λ h. ground (arith, h, no_rule refl)), λ h. absurd h), refl)
  list_admits puts chain_name chain i (t ∷ ts) cmds all m depth (short, short', h, ready)
        (c, cs, e, w, ws) ((d1, (d2, d)), ((d3, dp), (dq, differ_))) (same_p, (same_q, same)) hold k
        lt no_rule =
      let b = no_set_at_all ⦃lib = lib⦄ t.ports t.sets in
      let p = t.port_chain.name in
      let q = t.peers_chain.name in
      let hits =
        AnyHit-iff lib step sets l4proto x ev t.sets t.ports b
          (no_set_at_all-blank ⦃lib = lib⦄ t.ports t.sets h)
          (λ tr. collect_ports-InSome ⦃lib = lib⦄ puts tr t.ports t.sets x k h) in
      let (hold_c, hold_cs) =
        All-split (SetHolds lib sets) c cs (subst (All (SetHolds lib sets)) e hold) in
      let elsewhere = all_elsewhere lib step sets l4proto x ev in
      let both_written =
        λ (name : Bytes) (same_n : Same all cmds name)
            (other : NotAmong name (chain.name ∷ names_of ts)).
          same_n
          ∙ ap (rules_after name []) e
          ∙ rules_after-append name [] c cs
          ∙ elsewhere name chain ts cs ws other (d, differ_) (rules_after name [] c) in
      let e_p = both_written p same_p ((λ j. d1 (sym j)), dp) in
      let e_q = both_written q same_q ((λ j. d2 (sym j)), dq) in
      let later =
        later-Same chain t (names_of ts) c cs all w ((d1, (d2, d)), ((d3, dp), (dq, differ_)))
          (subst (λ u. All (Same all u) (names_of ts)) e same) in
      let (m1, lt1, iff, runs) =
        commands_admit lib step sets l4proto x ev chain t.port_chain t.peers_chain t.sets b c all m
          depth (Matches t.ports l4proto x) w d1 d2 d3 e_p e_q hold_c k lt hits in
      elim (Bool-cases (both_bits m1)) [
        | inl both ↦ (
          m1,
          lt1,
          ((λ _. inl (iff.0 both)), λ _. both),
          runs (list_rules ⦃lib = lib⦄ ts) ∙ rw both refl,
        )
        | inr not_both ↦
            let (m', lt', iff', run') =
              list_admits puts chain_name chain (suc i) ts cs all m1 depth ready ws (d, differ_)
                later hold_cs k lt1 (λ _. not_both) in
            (
              m',
              lt',
              (
                (λ j. inr (iff'.0 j)),
                λ j. elim j [
                  | inl hit ↦ absurd (ground (arith, iff.1 hit, not_both))
                  | inr others ↦ iff'.1 others
                ],
              ),
              runs (list_rules ⦃lib = lib⦄ ts) ∙ rw not_both run',
            )
      ]
