-- ===== src/Packets/PortMatch.antt =====
-- When the ports of a rule match a packet.
use multi_networkpolicy_nfta.Packets.PortChain.{number_of}
use multi_networkpolicy_nfta.Nft.{SetElement, Libraries}
use multi_networkpolicy_nfta.Ports.{
  numeric_port, validate_port_spec, PortSets, all_ports_default, add_elements, collect_ports,
}
use multi_networkpolicy_nfta.Ports.Union.{transport_of, Admits, checked_elements-int}
use multi_networkpolicy_nfta.Cluster.{IntOrString, PolicyPort}
use multi_networkpolicy_nfta.Base.{
  is_empty, Any, Bytes, ok, Result-cases, ℤ, ℕ, ◌≡◌, refl, ap, ◌⊎◌, inl, inr, Bool, true, false,
  ◌&&◌, Option, none, some, List, [], ◌∷◌, ◌++◌, arith,
}

-- A port has neither a number nor a protocol; no port of a list has a number or a protocol.
abbrev pub blank : Option IntOrString → Option Bytes → Bool
blank none none = true
blank none (some _) = false
blank (some _) _ = false

abbrev pub all_blank : List PolicyPort → Bool
all_blank [] = true
all_blank (p ∷ ps) = blank p.port p.protocol && all_blank ps

-- The ports of a rule match a packet: there is no restriction, or some port has the packet's
-- protocol and its number.
abbrev pub Matches : List PolicyPort → Bytes → ℕ → Type 0
Matches ports l4proto x =
    (all_blank ports ≡ true)
    ⊎ Any (λ p. (l4proto ≡ number_of (transport_of p.protocol)) × Admits p x) ports

abbrev pub all_empty : PortSets → Bool
all_empty sets = is_empty sets.tcp && is_empty sets.udp && is_empty sets.sctp

is_empty-append : {A : Type 0} (xs ys : List A) → is_empty (xs ++ ys) ≡ (is_empty xs && is_empty ys)
is_empty-append [] ys = refl
is_empty-append (x ∷ xs) ys = refl

all_empty-add_elements :
    (protocol : Option Bytes) (els : List SetElement) (acc : PortSets)
    → all_empty (add_elements protocol els acc) ≡ (all_empty acc && is_empty els)
all_empty-add_elements none els acc = ground (arith, is_empty-append acc.tcp els)
all_empty-add_elements (some protocol) els acc =
    ground (
      arith,
      is_empty-append acc.tcp els,
      is_empty-append acc.udp els,
      is_empty-append acc.sctp els,
    )

module _ ⦃lib : Libraries⦄ where
  validate_port_spec-blank :
      (protocol : Option Bytes) (port : Option IntOrString) (ep : Option ℤ) (els : List SetElement)
      → validate_port_spec
          (all_ports_default (record { protocol = protocol; port = port; end_port = ep }))
        ≡ ok els
      → is_empty els ≡ blank port protocol
  unfolding validate_port_spec numeric_port
  validate_port_spec-blank none none ep els h = ground (arith, h)
  validate_port_spec-blank (some protocol) none ep els h = ground (arith, h)
  validate_port_spec-blank protocol (some spec) ep els h = elim (Result-cases (numeric_port spec)) [
    | inr (x, q) ↦ absurd (ground (arith, q))
    | inl (n, q) ↦
        let (_, _, _, form) = checked_elements-int n ep els (ground (arith, q)) in ap is_empty form
  ]

  pub collect_ports-blank :
      (ports : List PolicyPort) (acc sets : PortSets)
      → collect_ports ports acc ≡ ok sets
      → all_empty sets ≡ (all_empty acc && all_blank ports)
  unfolding collect_ports
  collect_ports-blank [] acc sets h = ground (arith, h)
  collect_ports-blank (p ∷ ps) acc sets h =
      elim (Result-cases (validate_port_spec (all_ports_default p))) [
        | inr (e, q) ↦ absurd (ground (arith, q))
        | inl (els, q) ↦
            let here = validate_port_spec-blank p.protocol p.port p.end_port els q in
            let step_ = all_empty-add_elements p.protocol els acc in
            let rest =
              collect_ports-blank ps (add_elements p.protocol els acc) sets (ground (arith, q)) in
            ground (arith, here, step_, rest)
      ]
