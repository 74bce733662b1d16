-- ===== src/Packets/PortRules.antt =====
-- What the port rules of a policy do to a packet, on a kernel that has nothing of them yet.
use mathlib.Core.List.{append-nil}
use mathlib.Core.Path.{subst}
use multi_networkpolicy_nfta.Packets.{Vm, Step, word, Evaluates, run_rule}
use multi_networkpolicy_nfta.Packets.Marks.{set_port_bit}
use multi_networkpolicy_nfta.Packets.Rules.{run_accept_all}
use multi_networkpolicy_nfta.Packets.Chain.{write_on, rules_after, rules_after-append}
use multi_networkpolicy_nfta.Packets.Effects.{Effect, unmarked, marked, Effect-append}
use multi_networkpolicy_nfta.Packets.PortChain.{number_of, SetHolds, ProtocolWrites, writes_mark}
use multi_networkpolicy_nfta.Nft.{Chain, SetElement, Expr, Rule, add_rule, Transcript, Libraries}
use multi_networkpolicy_nfta.Ports.{PortSets, accept_all_exprs}
use multi_networkpolicy_nfta.Ports.Union.{
  Transport, tcp_transport, udp_transport, sctp_transport, InSome,
}
use multi_networkpolicy_nfta.Fields.{port_rule_mark}
use multi_networkpolicy_nfta.Packets.PortSends.{when_all, Written}
use multi_networkpolicy_nfta.Base.{
  Bool-cases, All, All-split, Bytes, eq_bytes, eq_bytes_iff, ℕ, ◌≤◌, ◌<◌, ◌≡◌, refl, sym, ap, ◌∙◌,
  ◌≢◌, ◌⊎◌, inl, inr, Bool, true, false, List, [], ◌∷◌, ◌++◌, arith,
}

-- the commands that a list of writes does not put on the chain of a name
abbrev pub Untouched : Bytes → Transcript → Type 0
Untouched name cmds = (rules : List (List Expr)) → rules_after name rules cmds ≡ rules

Untouched-append :
    (name : Bytes) (cs ds : Transcript)
    → Untouched name cs
    → Untouched name ds
    → Untouched name (cs ++ ds)
Untouched-append name cs ds f g rules =
    rules_after-append name rules cs ds ∙ ap (λ l. rules_after name l ds) (f rules) ∙ g rules

pub rule_elsewhere :
    (name : Bytes) (r : Rule) (other_name : Bytes)
    → r.chain.name ≡ other_name
    → name ≢ other_name
    → Untouched name (add_rule r ∷ [])
rule_elsewhere name r other_name e differs rules = elim (Bool-cases (eq_bytes r.chain.name name)) [
  | inr no_ ↦ rw (no_, rules_after, write_on) refl
  | inl same ↦ absurd (differs (sym ((eq_bytes_iff r.chain.name name).0 same) ∙ e))
]

module _ ⦃lib : Libraries⦄ where
  protocol_elsewhere :
      (t : Transport) (els : List SetElement) (name other_name : Bytes) (cmds : Transcript)
      → ProtocolWrites t els other_name cmds
      → name ≢ other_name
      → Untouched name cmds
  protocol_elsewhere t els name other_name cmds (inl (e, none_sent)) differs rules =
      rw none_sent refl
  protocol_elsewhere t els name other_name cmds (inr (set, id, r, sent, named, exprs)) differs
        rules =
      rw sent (rule_elsewhere name r other_name named differs rules)

  last_elsewhere :
      (b : Bool) (name : Bytes) (r : Rule) (other_name : Bytes)
      → r.chain.name ≡ other_name
      → name ≢ other_name
      → Untouched name (when_all b (add_rule r))
  last_elsewhere false name r other_name e differs rules = refl
  last_elsewhere true name r other_name e differs rules =
      rule_elsewhere name r other_name e differs rules

  pub Written-elsewhere :
      (name : Bytes) (port_chain : Chain) (sets : PortSets) (b : Bool) (cmds : Transcript)
      → Written port_chain sets b cmds
      → name ≢ port_chain.name
      → Untouched name cmds
  Written-elsewhere name port_chain sets b cmds w differs =
      let pc = port_chain.name in
      let last' = last_elsewhere b name w.last pc w.last_chain differs in
      let sctp' =
        protocol_elsewhere sctp_transport sets.sctp name pc w.sctp w.sctp_writes differs in
      let udp' = protocol_elsewhere udp_transport sets.udp name pc w.udp w.udp_writes differs in
      let tcp' = protocol_elsewhere tcp_transport sets.tcp name pc w.tcp w.tcp_writes differs in
      let l = when_all b (add_rule w.last) in
      subst (Untouched name) (sym w.all_of) (
        Untouched-append name w.tcp (w.udp ++ (w.sctp ++ l)) tcp' (
          Untouched-append name w.udp (w.sctp ++ l) udp'
            (Untouched-append name w.sctp l sctp' last')))

module _ (lib : Libraries) (step : Expr → Vm → Step) (sets : Bytes → Bytes → Bool) (l4proto : Bytes)
    (x : ℕ) (ev : Evaluates lib step sets l4proto (lib.big_uint16 x)) where
  last_marks :
      (b : Bool) (name : Bytes) (r : Rule) (m : ℕ)
      → r.chain.name ≡ name
      → r.exprs ≡ accept_all_exprs ⦃lib = lib⦄ port_rule_mark
      → m < word
      → Effect step name (when_all ⦃lib = lib⦄ b (add_rule r)) m (b ≡ true)
  last_marks false name r m named exprs h =
      ([], λ rules. sym (append-nil rules), (m, refl, unmarked m (false ≡ true) h (λ e. cc)))
  last_marks true name r m named exprs h =
      let here = (eq_bytes_iff r.chain.name name).1 named in
      let e =
        run_accept_all lib step sets l4proto (lib.big_uint16 x) ev port_rule_mark m h (omega arith)
          (omega arith) in
      (
        r.exprs ∷ [],
        λ rules. rw (here, rules_after, write_on) refl,
        (
          set_port_bit m,
          (set_port_bit m, ap (λ es. run_rule step es m) exprs ∙ e, refl),
          marked m (true ≡ true) h refl,
        ),
      )

  -- the four parts of what the ports match
  abbrev pub AnyHit : PortSets → Bool → Type 0
  AnyHit els b =
      (((l4proto ≡ number_of tcp_transport) × InSome els.tcp x)
        ⊎ (((l4proto ≡ number_of udp_transport) × InSome els.udp x)
            ⊎ (((l4proto ≡ number_of sctp_transport) × InSome els.sctp x) ⊎ (b ≡ true))))

  pub Written-marks :
      (port_chain : Chain) (els : PortSets) (b : Bool) (cmds : Transcript) (m : ℕ)
      → (w : Written ⦃lib = lib⦄ port_chain els b cmds) → All (SetHolds lib sets) cmds
      → x ≤ 65535
      → m < word
      → Effect step port_chain.name cmds m (AnyHit els b)
  Written-marks port_chain els b cmds m w hold k h =
      let pc = port_chain.name in
      let l = when_all ⦃lib = lib⦄ b (add_rule w.last) in
      let P = SetHolds lib sets in
      let (h1, r1) = All-split P w.tcp (w.udp ++ (w.sctp ++ l)) (subst (All P) w.all_of hold) in
      let (h2, r2) = All-split P w.udp (w.sctp ++ l) r1 in
      let (h3, r3) = All-split P w.sctp l r2 in
      let hit =
        λ (t : Transport) (els' : List SetElement). (l4proto ≡ number_of t) × InSome els' x in
      let marks =
        λ (t : Transport) (els' : List SetElement) (c : Transcript)
            (pw : ProtocolWrites ⦃lib = lib⦄ t els' pc c) (hc : All P c) (m1 : ℕ) (lt : m1 < word).
          writes_mark lib step sets l4proto x ev t els' pc c m1 pw hc k lt in
      subst (λ c. Effect step pc c m (AnyHit els b)) (sym w.all_of)
        (Effect-append step pc w.tcp (w.udp ++ (w.sctp ++ l)) m (hit tcp_transport els.tcp)
          (hit udp_transport els.udp ⊎ (hit sctp_transport els.sctp ⊎ (b ≡ true)))
          (marks tcp_transport els.tcp w.tcp w.tcp_writes h1 m h)
          (λ m1 lt1.
            Effect-append step pc w.udp (w.sctp ++ l) m1 (hit udp_transport els.udp)
              (hit sctp_transport els.sctp ⊎ (b ≡ true))
              (marks udp_transport els.udp w.udp w.udp_writes h2 m1 lt1)
              (λ m2 lt2.
                Effect-append step pc w.sctp l m2 (hit sctp_transport els.sctp) (b ≡ true)
                  (marks sctp_transport els.sctp w.sctp w.sctp_writes h3 m2 lt2)
                  (λ m3 lt3. last_marks b pc w.last m3 w.last_chain w.last_exprs lt3))))
