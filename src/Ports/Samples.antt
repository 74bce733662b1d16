-- ===== src/Ports/Samples.antt =====
-- Ports that are given as numbers and as texts.
use multi_networkpolicy_nfta.Ports.{validate_port_spec, PortSets, collect_ports}
use multi_networkpolicy_nfta.Ports.Interval.{
  PutsBigEndian, Covers, last_port, validate_port_spec-Covers, LiesInPorts,
  validate_port_spec-accepts_iff, validate_port_spec-decimal,
}
use multi_networkpolicy_nfta.Ports.Union.{
  tcp_transport, elements_of, InSome, Lets, collect_ports-InSome,
}
use multi_networkpolicy_nfta.Cluster.{int_val, str_val, PolicyPort}
use multi_networkpolicy_nfta.Nft.{SetElement}
use multi_networkpolicy_nfta.Nft.Fake.{fresh}
use multi_networkpolicy_nfta.Base.{
  Any, codes, decimal, ok, err, pos, ℕ, ◌≤◌, ◌≡◌, refl, ◌↔◌, none, some, List, [], ◌∷◌, arith,
}

-- a specification with a numeric port
abbrev from_to : ℕ → ℕ → PolicyPort
from_to first last = record {
  protocol = some (codes "TCP");
  port = some (int_val (pos first));
  end_port = some (pos last);
}

fresh-PutsBigEndian : PutsBigEndian fresh
fresh-PutsBigEndian = record { spelled = λ n h. omega arith }

abbrev web_elements : List SetElement
web_elements = elim (validate_port_spec (from_to 8000 65535)) [ ok els ↦ els | err e ↦ [] ]

validate_port_spec-Covers_example :
    Covers web_elements 65535 ↔ ((8000 ≤ 65535) × (65535 ≤ last_port (some (pos 65535)) 8000))
unfolding validate_port_spec
validate_port_spec-Covers_example =
    validate_port_spec-Covers fresh-PutsBigEndian (from_to 8000 65535) 8000 web_elements 65535 refl
      refl (omega arith)

validate_port_spec-accepts_iff_example :
    ((els : List SetElement) × (validate_port_spec (from_to 80 90) ≡ ok els))
    ↔ LiesInPorts (pos 80) (some (pos 90))
validate_port_spec-accepts_iff_example =
    validate_port_spec-accepts_iff (from_to 80 90) (pos 80) refl

validate_port_spec-decimal_example :
    validate_port_spec (record (from_to 0 8090) { port = some (str_val (decimal 8080)) })
    ≡ validate_port_spec (from_to 8080 8090)
validate_port_spec-decimal_example =
    validate_port_spec-decimal (from_to 0 8090) 8080 (omega arith) (omega arith)

-- two ports of TCP, one of them with no protocol, and one of UDP
abbrev mixed_ports : List PolicyPort
mixed_ports =
    from_to 80 90
    ∷ record (from_to 443 443) { protocol = none }
    ∷ record (from_to 53 53) { protocol = some (codes "UDP") }
    ∷ []

abbrev mixed_sets : PortSets
mixed_sets = elim (collect_ports mixed_ports (record { tcp = []; udp = []; sctp = [] })) [
  | ok sets ↦ sets
  | err e ↦ record { tcp = []; udp = []; sctp = [] }
]

collect_ports-InSome_example :
    InSome (elements_of tcp_transport mixed_sets) 443 ↔ Any (Lets tcp_transport 443) mixed_ports
unfolding collect_ports validate_port_spec
collect_ports-InSome_example =
    collect_ports-InSome fresh-PutsBigEndian tcp_transport mixed_ports mixed_sets 443 (omega arith)
      refl
