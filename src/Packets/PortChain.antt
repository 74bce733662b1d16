-- ===== src/Packets/PortChain.antt =====
-- The chain of a rule's ports, on a kernel that has nothing of it yet.
use mathlib.Core.List.{append-nil}
use mathlib.Core.Path.{subst}
use multi_networkpolicy_nfta.Packets.{Vm, Step, word, Evaluates, goes_on, run_rule}
use multi_networkpolicy_nfta.Packets.Marks.{set_port_bit}
use multi_networkpolicy_nfta.Packets.Rules.{run_proto_ports}
use multi_networkpolicy_nfta.Packets.Chain.{write_on, rules_after}
use multi_networkpolicy_nfta.Packets.Effects.{Marked, Effect, unmarked, marked}
use multi_networkpolicy_nfta.Packets.Empty.{
  EmptyKernel, Sends, Sends-bind, Sends-none, update_rule-Sends, update_set-Sends,
}
use multi_networkpolicy_nfta.Nft.{
  Chain, NftSet, SetElement, Expr, Rule, Command, add_rule, add_set, Transcript, Libraries,
  NftState,
}
use multi_networkpolicy_nfta.Ports.{
  get_inet_set, proto_ports_exprs, apply_proto_ports_rules, apply_protocol,
}
use multi_networkpolicy_nfta.Ports.Union.{
  Transport, tcp_transport, udp_transport, sctp_transport, InSome,
}
use multi_networkpolicy_nfta.Fields.{
  ipproto_tcp, ipproto_udp, ipproto_sctp, protocol_tcp, protocol_udp, protocol_sctp,
  get_protocol_info, concat, new_rule,
}
use multi_networkpolicy_nfta.Rules.{update_rule}
use multi_networkpolicy_nfta.Sets.{update_set}
use multi_networkpolicy_nfta.Base.{
  Bool-cases, All, Bytes, codes, eq_bytes, eq_bytes_iff, ◌>>=◌, done, ℕ, ◌≤◌, ◌<◌, ◌≡◌, refl, sym,
  ap, ◌∙◌, ◌↔◌, ◌⊎◌, inl, inr, Bool, true, false, List, [], ◌∷◌, arith,
}

abbrev pub number_of : Transport → Bytes
number_of tcp_transport = ipproto_tcp ∷ []
number_of udp_transport = ipproto_udp ∷ []
number_of sctp_transport = ipproto_sctp ∷ []

abbrev pub protocol_of : Transport → Bytes
protocol_of tcp_transport = protocol_tcp
protocol_of udp_transport = protocol_udp
protocol_of sctp_transport = protocol_sctp

-- the sets of ports hold the elements with which they were added
abbrev pub SetHolds : Libraries → (Bytes → Bytes → Bool) → Command → Type 0
SetHolds lib sets (add_set set els) =
    (x : ℕ) → x ≤ 65535 → (sets set.name (lib.big_uint16 x) ≡ true) ↔ InSome els x
SetHolds lib sets _ = Unit

module _ ⦃lib : Libraries⦄ where
  -- what is sent for a protocol, given the chain's name
  abbrev pub ProtocolWrites : Transport → List SetElement → Bytes → Transcript → Type 0
  ProtocolWrites t els name cmds =
      ((els ≡ []) × (cmds ≡ []))
      ⊎ ((set : NftSet) × (id : ℕ) × (r : Rule) × (cmds ≡ add_set set els ∷ add_rule r ∷ [])
          × (r.chain.name ≡ name)
          × (r.exprs ≡ proto_ports_exprs (record set { id = id }) (number_of t)))

  -- the rule of a protocol, with the set that its call has got
  abbrev protocol_rule : Bytes → Chain → Bytes → NftSet → Bytes → Rule
  protocol_rule ports_name port_chain policy_name set number =
      new_rule port_chain.table port_chain
        (concat (
          codes "policy:"
          ∷ policy_name
          ∷ codes ", name:"
          ∷ ports_name
          ∷ codes ", set:"
          ∷ set.name
          ∷ []))
        (proto_ports_exprs set number)

  protocol_rule-Sends :
      (empty : EmptyKernel lib) (ports_name : Bytes) (port_chain : Chain) (policy_name : Bytes)
      (set : NftSet) (number : Bytes) (s : NftState)
      → Sends
          (apply_proto_ports_rules ports_name port_chain policy_name set number)
          s
          tt
          (add_rule (protocol_rule ports_name port_chain policy_name set number) ∷ [])
  unfolding apply_proto_ports_rules
  protocol_rule-Sends empty ports_name port_chain policy_name set number s =
      let rule = protocol_rule ports_name port_chain policy_name set number in
      let first = update_rule-Sends empty rule add_rule false s in
      Sends-bind (update_rule rule add_rule false) (λ _. done) s true tt (add_rule rule ∷ []) []
        first (Sends-none tt first.0)

  set_and_rule-Sends :
      (empty : EmptyKernel lib) (els : List SetElement) (ports_name : Bytes)
      (chain port_chain : Chain) (policy_name suffix number : Bytes) (s : NftState)
      → (set : NftSet) × (id : ℕ) × (r : Rule) × (r.chain.name ≡ port_chain.name)
        × (r.exprs ≡ proto_ports_exprs (record set { id = id }) number)
        × Sends
            (update_set (get_inet_set chain ports_name suffix) els >>= λ set.
              apply_proto_ports_rules ports_name port_chain policy_name set number)
            s
            tt
            (add_set set els ∷ add_rule r ∷ [])
  unfolding get_inet_set
  set_and_rule-Sends empty els ports_name chain port_chain policy_name suffix number s =
      let wanted = get_inet_set chain ports_name suffix in
      let (name, id, first) = update_set-Sends empty wanted els s in
      let set : NftSet = record wanted { name = name } in
      let set' : NftSet = record set { id = id } in
      let rule = protocol_rule ports_name port_chain policy_name set' number in
      (
        set,
        id,
        rule,
        refl,
        refl,
        Sends-bind (update_set wanted els)
            (λ set. apply_proto_ports_rules ports_name port_chain policy_name set number) s set' tt
            (add_set set els ∷ []) (add_rule rule ∷ []) first
            (protocol_rule-Sends empty ports_name port_chain policy_name set' number first.0),
      )

  number_matches : (t : Transport) → (get_protocol_info (protocol_of t)).1 ≡ number_of t
  number_matches tcp_transport = refl
  number_matches udp_transport = refl
  number_matches sctp_transport = refl

  pub apply_protocol-Sends :
      (empty : EmptyKernel lib) (t : Transport) (els : List SetElement) (ports_name : Bytes)
      (chain port_chain : Chain) (policy_name : Bytes) (s : NftState)
      → (cmds : Transcript) × Sends
          (apply_protocol (protocol_of t) els ports_name chain port_chain policy_name)
          s
          tt
          cmds
        × ProtocolWrites t els port_chain.name cmds
  unfolding apply_protocol
  apply_protocol-Sends empty t [] ports_name chain port_chain policy_name s =
      ([], (s, refl, sym (append-nil s.sent), refl), inl (refl, refl))
  apply_protocol-Sends empty t (e ∷ els) ports_name chain port_chain policy_name s =
      let (suffix, number) = get_protocol_info (protocol_of t) in
      let (set, id, r, named, exprs, sends) =
        set_and_rule-Sends empty (e ∷ els) ports_name chain port_chain policy_name suffix number
          s in
      (
        add_set set (e ∷ els) ∷ add_rule r ∷ [],
        sends,
        inr (
          set,
          id,
          r,
          refl,
          named,
          exprs ∙ ap (proto_ports_exprs (record set { id = id })) (number_matches t),
        ),
      )

module _ (lib : Libraries) (step : Expr → Vm → Step) (sets : Bytes → Bytes → Bool) (l4proto : Bytes)
    (x : ℕ) (ev : Evaluates lib step sets l4proto (lib.big_uint16 x)) where
  -- the packet is of the protocol, and its port is in the elements
  abbrev pub Hits : Transport → List SetElement → Type 0
  Hits t els = (l4proto ≡ number_of t) × InSome els x

  rule_marks :
      (t : Transport) (els : List SetElement) (set : NftSet) (m : ℕ)
      → ((sets set.name (lib.big_uint16 x) ≡ true) ↔ InSome els x)
      → m < word
      → (m' : ℕ) × (run_rule step (proto_ports_exprs ⦃lib = lib⦄ set (number_of t)) m ≡ goes_on m')
        × Marked m m' (Hits t els)
  rule_marks t els set m holds h =
      let e = run_proto_ports lib step sets l4proto (lib.big_uint16 x) ev set (number_of t) m h in
      let same = eq_bytes_iff l4proto (number_of t) in
      elim (Bool-cases (eq_bytes l4proto (number_of t))) [
        | inr other_proto ↦ (
          m,
          e ∙ rw other_proto refl,
          unmarked m (Hits t els) h (λ k. ground (arith, other_proto, same.1 k.0)),
        )
        | inl p ↦ elim (Bool-cases (sets set.name (lib.big_uint16 x))) [
          | inr outside ↦ (
            m,
            e ∙ rw (p, outside) refl,
            unmarked m (Hits t els) h (λ k. ground (arith, outside, holds.1 k.1)),
          )
          | inl inside ↦ (
            set_port_bit m,
            e ∙ rw (p, inside) refl,
            marked m (Hits t els) h (same.0 p, holds.0 inside),
          )
        ]
      ]

  pub writes_mark :
      (t : Transport) (els : List SetElement) (name : Bytes) (cmds : Transcript) (m : ℕ)
      → ProtocolWrites ⦃lib = lib⦄ t els name cmds
      → All (SetHolds lib sets) cmds
      → x ≤ 65535
      → m < word
      → Effect step name cmds m (Hits t els)
  writes_mark t els name cmds m (inl (e, none_sent)) hold k h =
      rw (e, none_sent)
        ([], λ rules. sym (append-nil rules), (m, refl, unmarked m (Hits t []) h (λ b. b.1)))
  writes_mark t els name cmds m (inr (set, id, r, sent, named, exprs)) hold k h =
      let (set_holds, _) = subst (All (SetHolds lib sets)) sent hold in
      let (m', e, good) = rule_marks t els (record set { id = id }) m (set_holds x k) h in
      let here = (eq_bytes_iff r.chain.name name).1 named in
      rw sent (
        r.exprs ∷ [],
        λ rules. rw (here, rules_after, write_on) refl,
        (m', (m', ap (λ es. run_rule step es m) exprs ∙ e, refl), good),
      )
