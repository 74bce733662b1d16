-- ===== src/Packets/RuleChains.antt =====
-- Which rules the three chains of a rule without peers get.
use mathlib.Core.List.{append-nil}
use mathlib.Core.Path.{subst}
use multi_networkpolicy_nfta.Packets.{Vm, Step, Evaluates}
use multi_networkpolicy_nfta.Nft.{Chain, Expr, Rule, new_chain, add_rule, Transcript, Libraries}
use multi_networkpolicy_nfta.Ports.{PortSets, accept_all_exprs}
use multi_networkpolicy_nfta.Fields.{peer_rule_mark, jump_exprs, check_mark_exprs}
use multi_networkpolicy_nfta.Packets.PortRules.{Written-elsewhere}
use multi_networkpolicy_nfta.Marks.{mark_reset_exprs}
use multi_networkpolicy_nfta.Packets.RuleSends.{RuleWritten}
use multi_networkpolicy_nfta.Packets.Adds.{
  Adds, Adds-append, Adds-here, Adds-nothing, Adds-elsewhere, Adds-new_chain,
}
use multi_networkpolicy_nfta.Base.{Bytes, ℕ, ◌≡◌, sym, ◌≢◌, Bool, List, [], ◌∷◌, ◌++◌}

module _ ⦃lib : Libraries⦄ where
  -- the four rules that a rule of a policy has on the policy's chain
  abbrev pub policy_rules : Bytes → Bytes → List (List Expr)
  policy_rules ports_name peers_name =
      mark_reset_exprs ∷ jump_exprs ports_name ∷ jump_exprs peers_name ∷ check_mark_exprs ∷ []

module _ (lib : Libraries) (step : Expr → Vm → Step) (sets : Bytes → Bytes → Bool) (l4proto : Bytes)
    (x : ℕ) (ev : Evaluates lib step sets l4proto (lib.big_uint16 x)) where
  module _ (chain port_chain peers_chain : Chain) (els : PortSets) (b : Bool) (cmds : Transcript)
      (w : RuleWritten ⦃lib = lib⦄ chain port_chain peers_chain els b cmds)
      (differ_ports : chain.name ≢ port_chain.name) (differ_peers : chain.name ≢ peers_chain.name)
      (differ_both : port_chain.name ≢ peers_chain.name) where
    -- a chain has what the six parts put on it
    pub parts_add :
        (name : Bytes) (r1 r2 r3 r4 r5 r6 : List (List Expr))
        → Adds name r1 (add_rule w.reset ∷ [])
        → Adds name r2 (add_rule w.jump_to_ports ∷ [])
        → Adds name r3 w.port_cmds
        → Adds name r4 (add_rule w.jump_to_peers ∷ [])
        → Adds name r5 (add_rule w.accept_peers ∷ [])
        → Adds name r6 (add_rule w.check ∷ [])
        → Adds name (r1 ++ (r2 ++ (r3 ++ (r4 ++ (r5 ++ r6))))) cmds
    parts_add name r1 r2 r3 r4 r5 r6 a1 a2 a3 a4 a5 a6 =
        let d1 = add_rule w.reset ∷ [] in
        let d2 = add_rule w.jump_to_ports ∷ [] in
        let d4 = add_rule w.jump_to_peers ∷ [] in
        let d5 = add_rule w.accept_peers ∷ [] in
        let d6 = add_rule w.check ∷ [] in
        let n1 = new_chain port_chain ∷ [] in
        let n2 = new_chain peers_chain ∷ [] in
        let q5 = Adds-append name r5 r6 d5 d6 a5 a6 in
        let q4 = Adds-append name r4 (r5 ++ r6) d4 (d5 ++ d6) a4 q5 in
        let k4 = d4 ++ (d5 ++ d6) in
        let q4' =
          Adds-append name [] (r4 ++ (r5 ++ r6)) n2 k4 (Adds-new_chain name peers_chain) q4 in
        let q3 = Adds-append name r3 (r4 ++ (r5 ++ r6)) w.port_cmds (n2 ++ k4) a3 q4' in
        let k3 = w.port_cmds ++ (n2 ++ k4) in
        let q2 = Adds-append name r2 (r3 ++ (r4 ++ (r5 ++ r6))) d2 k3 a2 q3 in
        let q2' =
          Adds-append name [] (r2 ++ (r3 ++ (r4 ++ (r5 ++ r6)))) n1 (d2 ++ k3)
            (Adds-new_chain name port_chain) q2 in
        subst (Adds name (r1 ++ (r2 ++ (r3 ++ (r4 ++ (r5 ++ r6)))))) (sym w.all_of)
          (Adds-append name r1 (r2 ++ (r3 ++ (r4 ++ (r5 ++ r6)))) d1 (n1 ++ (d2 ++ k3)) a1 q2')

    pub on_policy_chain :
        Adds chain.name (policy_rules ⦃lib = lib⦄ port_chain.name peers_chain.name) cmds
    on_policy_chain =
        let c = chain.name in
        let reset_ = mark_reset_exprs ⦃lib = lib⦄ in
        let check_ = check_mark_exprs ⦃lib = lib⦄ in
        let to_ports = jump_exprs port_chain.name in
        let to_peers = jump_exprs peers_chain.name in
        parts_add c (reset_ ∷ []) (to_ports ∷ []) [] (to_peers ∷ []) [] (check_ ∷ [])
          (Adds-here c w.reset reset_ w.reset_chain w.reset_exprs)
          (Adds-here c w.jump_to_ports to_ports w.ports_jump_chain w.ports_jump_exprs)
          (Adds-nothing c w.port_cmds (
            Written-elsewhere ⦃lib = lib⦄ c port_chain els b w.port_cmds w.port_writes
              differ_ports))
          (Adds-here c w.jump_to_peers to_peers w.peers_jump_chain w.peers_jump_exprs)
          (Adds-elsewhere c w.accept_peers peers_chain.name w.accept_chain differ_peers)
          (Adds-here c w.check check_ w.check_chain w.check_exprs)

    -- a write on the policy's chain is none on a chain of another name
    policy_elsewhere :
        (name : Bytes) (r : Rule)
        → chain.name ≢ name
        → r.chain.name ≡ chain.name
        → Adds name [] (add_rule r ∷ [])
    policy_elsewhere name r differs e = Adds-elsewhere name r chain.name e (λ k. differs (sym k))

    pub on_ports_chain :
        (rs : List (List Expr)) → Adds port_chain.name rs w.port_cmds → Adds port_chain.name rs cmds
    on_ports_chain rs adds =
        let p = port_chain.name in
        let e = policy_elsewhere p in
        subst (λ l. Adds p l cmds) (append-nil rs)
          (parts_add p [] [] rs [] [] [] (e w.reset differ_ports w.reset_chain)
            (e w.jump_to_ports differ_ports w.ports_jump_chain) adds
            (e w.jump_to_peers differ_ports w.peers_jump_chain)
            (Adds-elsewhere p w.accept_peers peers_chain.name w.accept_chain differ_both)
            (e w.check differ_ports w.check_chain))

    pub on_peers_chain :
        Adds peers_chain.name (accept_all_exprs ⦃lib = lib⦄ peer_rule_mark ∷ []) cmds
    on_peers_chain =
        let q = peers_chain.name in
        let accept_ = accept_all_exprs ⦃lib = lib⦄ peer_rule_mark in
        let e = policy_elsewhere q in
        parts_add q [] [] [] [] (accept_ ∷ []) [] (e w.reset differ_peers w.reset_chain)
          (e w.jump_to_ports differ_peers w.ports_jump_chain)
          (Adds-nothing q w.port_cmds (
            Written-elsewhere ⦃lib = lib⦄ q port_chain els b w.port_cmds w.port_writes
              (λ k. differ_both (sym k))))
          (e w.jump_to_peers differ_peers w.peers_jump_chain)
          (Adds-here q w.accept_peers accept_ w.accept_chain w.accept_exprs)
          (e w.check differ_peers w.check_chain)
