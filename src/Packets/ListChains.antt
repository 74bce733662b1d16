-- ===== src/Packets/ListChains.antt =====
-- Which rules the chains of a list of rules without peers get.
use Prim.Native.Nat.{differ}
use mathlib.Core.List.{append-nil}
use mathlib.Core.Path.{subst}
use multi_networkpolicy_nfta.Packets.{Vm, Step, Evaluates}
use multi_networkpolicy_nfta.Packets.Chain.{rules_after, rules_after-append}
use multi_networkpolicy_nfta.Nft.{Chain, Expr, Rule, Transcript, Libraries}
use multi_networkpolicy_nfta.Ports.Union.{no_ports}
use multi_networkpolicy_nfta.Packets.PortRules.{Untouched, Written-elsewhere}
use multi_networkpolicy_nfta.Packets.PortCall.{no_set_at_all}
use multi_networkpolicy_nfta.Packets.RuleSends.{no_peers}
use multi_networkpolicy_nfta.Packets.Adds.{Adds, Adds-append, Adds-nothing, Adds-elsewhere}
use multi_networkpolicy_nfta.Packets.RuleChains.{policy_rules, parts_add, on_policy_chain}
use multi_networkpolicy_nfta.Packets.ListSends.{RuleParts, OneWritten, AllWritten}
use multi_networkpolicy_nfta.Base.{All, Bytes, ℕ, ◌≡◌, sym, ap, ◌∙◌, ◌≢◌, Bool, List, [], ◌∷◌, ◌++◌}

abbrev pub names_of : List RuleParts → List Bytes
names_of [] = []
names_of (t ∷ ts) = t.port_chain.name ∷ t.peers_chain.name ∷ names_of ts

-- a name is none of a list; the names of a list differ
abbrev pub NotAmong : Bytes → List Bytes → Type 0
NotAmong name names = All (λ n. name ≢ n) names

abbrev pub AllDiffer : List Bytes → Type 0
AllDiffer [] = Unit
AllDiffer (n ∷ ns) = NotAmong n ns × AllDiffer ns

module _ ⦃lib : Libraries⦄ where
  abbrev pub list_rules : List RuleParts → List (List Expr)
  list_rules [] = []
  list_rules (t ∷ ts) = policy_rules t.port_chain.name t.peers_chain.name ++ list_rules ts

module _ (lib : Libraries) (step : Expr → Vm → Step) (sets : Bytes → Bytes → Bool) (l4proto : Bytes)
    (x : ℕ) (ev : Evaluates lib step sets l4proto (lib.big_uint16 x)) where
  pub one_elsewhere :
      (name : Bytes) (chain : Chain) (t : RuleParts) (cmds : Transcript)
      → OneWritten ⦃lib = lib⦄ chain t cmds
      → NotAmong name (chain.name ∷ t.port_chain.name ∷ t.peers_chain.name ∷ [])
      → AllDiffer (chain.name ∷ t.port_chain.name ∷ t.peers_chain.name ∷ [])
      → Untouched name cmds
  one_elsewhere name chain t cmds w (no_chain, (no_ports, (no_peers, _)))
        ((d1, (d2, _)), ((d3, _), _)) rules =
      let e =
        λ (r : Rule) (k : r.chain.name ≡ chain.name). Adds-elsewhere name r chain.name k no_chain in
      let adds =
        parts_add lib step sets l4proto x ev chain t.port_chain t.peers_chain t.sets
          (no_set_at_all ⦃lib = lib⦄ t.ports t.sets) cmds w d1 d2 d3 name [] [] [] [] [] []
          (e w.reset w.reset_chain) (e w.jump_to_ports w.ports_jump_chain)
          (Adds-nothing name w.port_cmds (
            Written-elsewhere ⦃lib = lib⦄ name t.port_chain t.sets
              (no_set_at_all ⦃lib = lib⦄ t.ports t.sets) w.port_cmds w.port_writes no_ports))
          (e w.jump_to_peers w.peers_jump_chain)
          (Adds-elsewhere name w.accept_peers t.peers_chain.name w.accept_chain no_peers)
          (e w.check w.check_chain) in
      adds rules ∙ append-nil rules

  pub on_list_chain :
      (chain : Chain) (ts : List RuleParts) (cmds : Transcript)
      → AllWritten ⦃lib = lib⦄ chain ts cmds
      → AllDiffer (chain.name ∷ names_of ts)
      → Adds chain.name (list_rules ⦃lib = lib⦄ ts) cmds
  on_list_chain chain [] cmds e differ =
      λ rules. ap (rules_after chain.name rules) e ∙ sym (append-nil rules)
  on_list_chain chain (t ∷ ts) cmds (c, cs, e, w, ws) ((d1, (d2, d)), ((d3, _), (_, differ_))) =
      subst (Adds chain.name (list_rules ⦃lib = lib⦄ (t ∷ ts))) (sym e) (
        Adds-append chain.name (policy_rules ⦃lib = lib⦄ t.port_chain.name t.peers_chain.name)
          (list_rules ⦃lib = lib⦄ ts) c cs
          (on_policy_chain lib step sets l4proto x ev chain t.port_chain t.peers_chain t.sets
            (no_set_at_all ⦃lib = lib⦄ t.ports t.sets) c w d1 d2 d3)
          (on_list_chain chain ts cs ws (d, differ_)))

  pub all_elsewhere :
      (name : Bytes) (chain : Chain) (ts : List RuleParts) (cmds : Transcript)
      → AllWritten ⦃lib = lib⦄ chain ts cmds
      → NotAmong name (chain.name ∷ names_of ts)
      → AllDiffer (chain.name ∷ names_of ts)
      → Untouched name cmds
  all_elsewhere name chain [] cmds e no_name differ = λ rules. ap (rules_after name rules) e
  all_elsewhere name chain (t ∷ ts) cmds (c, cs, e, w, ws) (n0, (n1, (n2, ns)))
        ((d1, (d2, d)), ((d3, _), (_, differ_))) =
      λ rules.
        ap (rules_after name rules) e
        ∙ rules_after-append name rules c cs
        ∙ ap (λ l. rules_after name l cs)
            (one_elsewhere name chain t c w (n0, (n1, (n2, tt)))
              ((d1, (d2, tt)), ((d3, tt), (tt, tt))) rules)
        ∙ all_elsewhere name chain ts cs ws (n0, ns) (d, differ_) rules
