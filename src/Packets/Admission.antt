-- ===== src/Packets/Admission.antt =====
-- What the four rules of a rule without peers do to a packet on the policy's chain.
use mathlib.Core.List.{append-nil}
use mathlib.Core.Path.{subst}
use multi_networkpolicy_nfta.Packets.{Vm, Step, word, Evaluates}
use multi_networkpolicy_nfta.Packets.Marks.{
  set_peer_bit, reset_bits, remark-lt, set_peer_bit-bits, reset_bits-bits, both_bits,
}
use multi_networkpolicy_nfta.Packets.Rules.{
  run_accept_all, run_mark_reset, run_jump, run_check_mark,
}
use multi_networkpolicy_nfta.Packets.Chain.{
  rules_after, ChainEnd, falls, run_rules, run_rules-Passes, run_chain,
}
use multi_networkpolicy_nfta.Packets.Effects.{Marked}
use multi_networkpolicy_nfta.Packets.PortChain.{SetHolds}
use multi_networkpolicy_nfta.Nft.{Chain, Expr, Transcript, Libraries}
use multi_networkpolicy_nfta.Ports.{PortSets}
use multi_networkpolicy_nfta.Fields.{peer_rule_mark, match_rule_mark, zero_rule_mark, complement32}
use multi_networkpolicy_nfta.Packets.PortRules.{AnyHit, Written-marks}
use multi_networkpolicy_nfta.Packets.RuleSends.{RuleWritten}
use multi_networkpolicy_nfta.Packets.RuleChains.{policy_rules, on_ports_chain, on_peers_chain}
use multi_networkpolicy_nfta.Base.{
  if◌then◌else◌, Bool-cases, All, All-split, Bytes, ℕ, suc, ◌≤◌, ◌<◌, ◌≡◌, refl, sym, ap, ◌∙◌, ◌≢◌,
  ◌↔◌, inl, inr, Bool, true, List, [], ◌++◌, arith,
}

module _ (lib : Libraries) (step : Expr → Vm → Step) (sets : Bytes → Bytes → Bool) (l4proto : Bytes)
    (x : ℕ) (ev : Evaluates lib step sets l4proto (lib.big_uint16 x)) where
  -- the packet leaves the chain with both bits, or is left to the rules behind
  run_policy_rules :
      (jump_to : Bytes → ℕ → ChainEnd) (ports_name peers_name : Bytes) (m m1 : ℕ)
      (more : List (List Expr))
      → m < word
      → m1 < word
      → jump_to ports_name (reset_bits m) ≡ falls m1
      → jump_to peers_name m1 ≡ falls (set_peer_bit m1)
      → run_rules step jump_to (policy_rules ⦃lib = lib⦄ ports_name peers_name ++ more) m ≡ (
          if both_bits (set_peer_bit m1)
          then falls (set_peer_bit m1)
          else run_rules step jump_to more (set_peer_bit m1))
  run_policy_rules jump_to ports_name peers_name m m1 more h h1 e1 e2 =
      let dport = lib.big_uint16 x in
      let m2 = set_peer_bit m1 in
      let lt = remark-lt (complement32 peer_rule_mark) peer_rule_mark m1 h1 (omega arith) in
      let check = run_check_mark lib step sets l4proto dport ev m2 lt in
      rw (run_mark_reset lib step sets l4proto dport ev m h, run_rules)
        (rw (run_jump lib step sets l4proto dport ev ports_name (reset_bits m), e1, run_rules)
          (rw (run_jump lib step sets l4proto dport ev peers_name m1, e2, run_rules)
            (elim (Bool-cases (both_bits m2)) [
              | inl both ↦ rw (check, both, run_rules) refl
              | inr not_both ↦ rw (check, not_both, run_rules) refl
            ])))

  -- after the reset, the port bit says what the ports match
  both_iff :
      (m m1 : ℕ) (hit : Type 0)
      → Marked (reset_bits m) m1 hit
      → (both_bits (set_peer_bit m1) ≡ true) ↔ hit
  both_iff m m1 hit (lt, b, p) =
      let (zero16, _) = reset_bits-bits m in
      let (one17, same16) = set_peer_bit-bits m1 in
      (
        λ h. elim (b.0 (ground (arith, h, same16))) [
          | inl old ↦ absurd (omega (arith, old, zero16))
          | inr new ↦ new
        ],
        λ h. let one16 = b.1 (inr h) in ground (arith, one16, one17, same16),
      )

  -- A packet at the four rules of a rule, with others behind them: it leaves the chain with both
  -- bits, iff `hit`, or is left to the others. `all` are the commands that made the chains.
  abbrev pub Admission : Transcript → Bytes → Bytes → ℕ → ℕ → Type 0 → Type 0
  Admission all ports_name peers_name m depth hit =
      (m' : ℕ) × (m' < word)
      × ((both_bits m' ≡ true) ↔ hit)
      × ((more : List (List Expr))
          → run_rules step (run_chain step all (suc depth))
              (policy_rules ⦃lib = lib⦄ ports_name peers_name ++ more) m
            ≡ (if both_bits m'
                then falls m'
                else run_rules step (run_chain step all (suc depth)) more m'))

  -- The commands of a rule among others that leave its chains alone, for a packet with any mark.
  pub commands_admit :
      (chain port_chain peers_chain : Chain) (els : PortSets) (b : Bool) (cmds all : Transcript)
      (m depth : ℕ) (hit : Type 0)
      → RuleWritten ⦃lib = lib⦄ chain port_chain peers_chain els b cmds
      → chain.name ≢ port_chain.name
      → chain.name ≢ peers_chain.name
      → port_chain.name ≢ peers_chain.name
      → rules_after port_chain.name [] all ≡ rules_after port_chain.name [] cmds
      → rules_after peers_chain.name [] all ≡ rules_after peers_chain.name [] cmds
      → All (SetHolds lib sets) cmds
      → x ≤ 65535
      → m < word
      → (AnyHit lib step sets l4proto x ev els b ↔ hit)
      → Admission all port_chain.name peers_chain.name m depth hit
  commands_admit chain port_chain peers_chain els b cmds all m depth hit w d1 d2 d3 same_ports
        same_peers hold k h hits =
      let dport = lib.big_uint16 x in
      let jump_to = run_chain step all (suc depth) in
      let base = run_chain step all depth in
      let pc = port_chain.name in
      let qc = peers_chain.name in
      let m0 = reset_bits m in
      let lt0 = remark-lt (complement32 match_rule_mark) zero_rule_mark m h (omega arith) in
      let (_, (_, (_, rest))) = subst (All (SetHolds lib sets)) w.all_of hold in
      let (port_hold, _) = All-split (SetHolds lib sets) w.port_cmds _ rest in
      let (rs, adds, (m1, passes, good)) =
        Written-marks lib step sets l4proto x ev port_chain els b w.port_cmds m0 w.port_writes
          port_hold k lt0 in
      let lt1 = good.0 in
      let ports_chain =
        on_ports_chain lib step sets l4proto x ev chain port_chain peers_chain els b cmds w d1 d2 d3
          rs adds in
      let peers_rules =
        on_peers_chain lib step sets l4proto x ev chain port_chain peers_chain els b cmds w d1 d2
          d3 in
      let e1 : jump_to pc m0 ≡ falls m1 =
        ap (λ l. run_rules step base l m0) (same_ports ∙ ports_chain [] ∙ sym (append-nil rs))
        ∙ run_rules-Passes step base rs [] m0 m1 passes in
      let accepted =
        run_accept_all lib step sets l4proto dport ev peer_rule_mark m1 lt1 (omega arith)
          (omega arith) in
      let e2 : jump_to qc m1 ≡ falls (set_peer_bit m1) =
        ap (λ l. run_rules step base l m1) (same_peers ∙ peers_rules [])
        ∙ rw (accepted, run_rules) refl in
      let iff = both_iff m m1 (AnyHit lib step sets l4proto x ev els b) good in
      (
        set_peer_bit m1,
        remark-lt (complement32 peer_rule_mark) peer_rule_mark m1 lt1 (omega arith),
        (λ q. hits.0 (iff.0 q), λ q. iff.1 (hits.1 q)),
        λ more. run_policy_rules jump_to pc qc m m1 more h lt1 e1 e2,
      )
