-- ===== src/Ports/Union.antt =====
-- Which packets the sets of a list of ports let through.
use mathlib.Core.List.{append-nil}
use multi_networkpolicy_nfta.Nft.{SetElement, Libraries}
use multi_networkpolicy_nfta.Cluster.{IntOrString, PolicyPort}
use multi_networkpolicy_nfta.Ports.{
  numeric_port, port_interval, checked_elements, validate_port_spec, PortSets, all_ports_default,
  add_elements, collect_ports,
}
use multi_networkpolicy_nfta.Ports.Interval.{
  PutsBigEndian, Covers, last_port, Covers-port_interval, checked_elements-form,
}
use multi_networkpolicy_nfta.Fields.{protocol_udp, protocol_sctp}
use multi_networkpolicy_nfta.Base.{
  if◌then◌else◌, Any, Bytes, eq_bytes, ok, err, Result-cases, ℤ, pos, negsuc, to_nat, ℕ, ◌≤◌, ◌≡◌,
  refl, ◌≢◌, ◌↔◌, ◌⊎◌, inl, inr, true, false, Option, none, some, List, [], ◌∷◌, ◌++◌, arith,
}

pub data Transport : Type 0 where
  tcp_transport udp_transport sctp_transport : Transport

-- The protocol of a port; TCP where it names none or another.
abbrev pub transport_of : Option Bytes → Transport
transport_of none = tcp_transport
transport_of (some protocol) =
    if eq_bytes protocol protocol_udp
    then udp_transport
    else if eq_bytes protocol protocol_sctp
    then sctp_transport
    else tcp_transport

abbrev pub elements_of : Transport → PortSets → List SetElement
elements_of tcp_transport sets = sets.tcp
elements_of udp_transport sets = sets.udp
elements_of sctp_transport sets = sets.sctp

abbrev pub no_ports : PortSets
no_ports = record { tcp = []; udp = []; sctp = [] }

-- A port lies in an interval of a set: between an element and the end element behind it.
abbrev pub InSome : List SetElement → ℕ → Type 0
InSome [] x = ⊥
InSome (a ∷ []) x = ⊥
InSome (a ∷ b ∷ rest) x =
    ((a.interval_end ≡ false) × (b.interval_end ≡ true) × Covers (a ∷ b ∷ []) x)
    ⊎ InSome (b ∷ rest) x

-- The ports of a specification with a number, up to its end port. With a protocol alone it has all
-- ports, and with neither it has none.
abbrev pub Admits : PolicyPort → ℕ → Type 0
Admits p x = elim p.port [
  | none ↦ elim p.protocol [ none ↦ ⊥ | some _ ↦ (1 ≤ x) × (x ≤ 65535) ]
  | some spec ↦ elim (numeric_port spec) [
    | err e ↦ ⊥
    | ok n ↦ (to_nat n ≤ x) × (x ≤ last_port p.end_port (to_nat n))
  ]
]

module _ ⦃lib : Libraries⦄ where
  InSome-append :
      (els : List SetElement) (first last x : ℕ)
      → InSome (els ++ port_interval first last) x
        ↔ (InSome els x ⊎ Covers (port_interval first last) x)
  InSome-append [] first last x = ground arith
  InSome-append (a ∷ []) first last x = ground arith
  InSome-append (a ∷ b ∷ rest) first last x = ground (arith, InSome-append (b ∷ rest) first last x)

  -- the elements of one port: none, or one interval
  abbrev IsOne : PolicyPort → List SetElement → Type 0
  IsOne p els =
      ((els ≡ []) × ((x : ℕ) → ¬ (Admits p x)))
      ⊎ ((first : ℕ) × (last : ℕ) × (first ≤ last)
          × (last ≤ 65535)
          × (els ≡ port_interval first last)
          × ((x : ℕ) → Admits p x ↔ ((first ≤ x) × (x ≤ last))))

  pub checked_elements-int :
      (n : ℤ) (ep : Option ℤ) (els : List SetElement)
      → checked_elements n ep ≡ ok els
      → (n ≡ pos (to_nat n))
        × (to_nat n ≤ last_port ep (to_nat n))
        × (last_port ep (to_nat n) ≤ 65535)
        × (els ≡ port_interval (to_nat n) (last_port ep (to_nat n)))
  checked_elements-int (negsuc n) ep els h = absurd (ground arith)
  checked_elements-int (pos n) ep els h =
      let (low, order, high, form) = checked_elements-form n ep els h in (refl, order, high, form)

  abbrev port_of : Option Bytes → Option IntOrString → Option ℤ → PolicyPort
  port_of protocol port end_port = record { protocol = protocol; port = port; end_port = end_port }

  fields-IsOne :
      (protocol : Option Bytes) (port : Option IntOrString) (ep : Option ℤ) (els : List SetElement)
      → validate_port_spec (all_ports_default (port_of protocol port ep)) ≡ ok els
      → IsOne (port_of protocol port ep) els
  unfolding validate_port_spec numeric_port
  fields-IsOne none none ep els h = inl (ground (arith, h), λ x a. a)
  fields-IsOne (some protocol) none ep els h =
      inr (1, 65535, omega arith, omega arith, ground (arith, h), λ x. (λ a. a, λ a. a))
  fields-IsOne protocol (some spec) ep els h = elim (Result-cases (numeric_port spec)) [
    | inr (x, q) ↦ absurd (ground (arith, q))
    | inl (n, q) ↦
        let (sign, order, high, form) = checked_elements-int n ep els (ground (arith, q)) in
        inr (
          to_nat n,
          last_port ep (to_nat n),
          order,
          high,
          form,
          λ x. rw (q, Admits) (λ h'. h', λ h'. h'),
        )
  ]

add_elements-cases :
    (t : Transport) (protocol : Option Bytes) (els : List SetElement) (acc : PortSets)
    → ((transport_of protocol ≡ t)
        × (elements_of t (add_elements protocol els acc) ≡ elements_of t acc ++ els))
      ⊎ ((transport_of protocol ≢ t)
          × (elements_of t (add_elements protocol els acc) ≡ elements_of t acc))
add_elements-cases tcp_transport none els acc = inl (refl, refl)
add_elements-cases udp_transport none els acc = inr (λ e. cc, refl)
add_elements-cases sctp_transport none els acc = inr (λ e. cc, refl)
add_elements-cases tcp_transport (some protocol) els acc = ground arith
add_elements-cases udp_transport (some protocol) els acc = ground arith
add_elements-cases sctp_transport (some protocol) els acc = ground arith

module _ ⦃lib : Libraries⦄ where
  -- the ports of a protocol that let a number through
  abbrev pub Lets : Transport → ℕ → PolicyPort → Type 0
  Lets t x p = (transport_of p.protocol ≡ t) × Admits p x

  one_more :
      (puts : PutsBigEndian lib) (p : PolicyPort) (els acc : List SetElement) (x : ℕ)
      → x ≤ 65535
      → IsOne p els
      → InSome (acc ++ els) x ↔ (InSome acc x ⊎ Admits p x)
  one_more puts p els acc x m (inl (e, no_one)) =
      rw (e, append-nil) (λ h. inl h, λ h. elim h [ inl k ↦ k | inr k ↦ absurd (no_one x k) ])
  one_more puts p els acc x m (inr (first, last, order, high, e, admits)) =
      let covers = Covers-port_interval puts first last x order high m in
      let more = InSome-append acc first last x in
      rw e (
        λ h. elim (more.0 h) [ inl k ↦ inl k | inr k ↦ inr ((admits x).1 (covers.0 k)) ],
        λ h. more.1 (elim h [ inl k ↦ inl k | inr k ↦ inr (covers.1 ((admits x).0 k)) ]),
      )

  add_elements_iff :
      (puts : PutsBigEndian lib) (t : Transport) (p : PolicyPort) (els : List SetElement)
      (acc : PortSets) (x : ℕ)
      → x ≤ 65535
      → IsOne p els
      → InSome (elements_of t (add_elements p.protocol els acc)) x
        ↔ (InSome (elements_of t acc) x ⊎ Lets t x p)
  add_elements_iff puts t p els acc x m one = elim (add_elements-cases t p.protocol els acc) [
    | inl (same, e) ↦
        let both = one_more puts p els (elements_of t acc) x m one in
        rw e (
          λ h. elim (both.0 h) [ inl k ↦ inl k | inr k ↦ inr (same, k) ],
          λ h. both.1 (elim h [ inl k ↦ inl k | inr k ↦ inr k.1 ]),
        )
    | inr (differs, e) ↦ rw e (λ h. inl h, λ h. elim h [ inl k ↦ k | inr k ↦ absurd (differs k.0) ])
  ]

  collect_ports_iff :
      (puts : PutsBigEndian lib) (t : Transport) (ports : List PolicyPort) (acc sets : PortSets)
      (x : ℕ)
      → x ≤ 65535
      → collect_ports ports acc ≡ ok sets
      → InSome (elements_of t sets) x ↔ (InSome (elements_of t acc) x ⊎ Any (Lets t x) ports)
  unfolding collect_ports
  collect_ports_iff puts t [] acc sets x m h =
      let e : acc ≡ sets = ground (arith, h) in
      rw⁻¹ e (λ k. inl k, λ k. elim k [ inl a ↦ a | inr b ↦ absurd b ])
  collect_ports_iff puts t (p ∷ ps) acc sets x m h =
      elim (Result-cases (validate_port_spec (all_ports_default p))) [
        | inr (e, q) ↦ absurd (ground (arith, q))
        | inl (els, q) ↦
            let one = fields-IsOne p.protocol p.port p.end_port els q in
            let here = add_elements_iff puts t p els acc x m one in
            let rest =
              collect_ports_iff puts t ps (add_elements p.protocol els acc) sets x m
                (ground (arith, q)) in
            (
              λ k. elim (rest.0 k) [
                | inl a ↦ elim (here.0 a) [ inl b ↦ inl b | inr b ↦ inr (inl b) ]
                | inr b ↦ inr (inr b)
              ],
              λ k. rest.1 (elim k [
                | inl a ↦ inl (here.1 (inl a))
                | inr b ↦ elim b [ inl c ↦ inl (here.1 (inr c)) | inr d ↦ inr d ]
              ]),
            )
      ]

  InSome-no_ports : (t : Transport) (x : ℕ) → InSome (elements_of t no_ports) x → ⊥
  InSome-no_ports tcp_transport x h = h
  InSome-no_ports udp_transport x h = h
  InSome-no_ports sctp_transport x h = h

  -- The elements that are collected for a protocol from the ports of a rule cover exactly the port
  -- numbers that some port of that protocol lets through, if all ports are accepted. A protocol that
  -- is absent or unknown counts as TCP. A port with neither a number nor a protocol lets nothing
  -- through here, where the CRD has it let through all of TCP.
  pub collect_ports-InSome :
      (puts : PutsBigEndian lib) (t : Transport) (ports : List PolicyPort) (sets : PortSets) (x : ℕ)
      → x ≤ 65535
      → collect_ports ports (record { tcp = []; udp = []; sctp = [] }) ≡ ok sets
      → InSome (elements_of t sets) x ↔ Any (Lets t x) ports
  collect_ports-InSome puts t ports sets x m h =
      let both = collect_ports_iff puts t ports no_ports sets x m h in
      (
        λ k. elim (both.0 k) [ inl none_yet ↦ absurd (InSome-no_ports t x none_yet) | inr a ↦ a ],
        λ a. both.1 (inr a),
      )
