-- ===== src/Packets/Samples.antt =====
-- A packet of TCP, on a kernel that evaluates the expressions by the numbers that the
-- bytes of a register spell.
use Prim.Native.Nat.{bit_and, bit_xor}
use mathlib.Core.Path.{ap₂}
use multi_networkpolicy_nfta.Packets.{Vm, Step, next, no_match, decides, Evaluates}
use multi_networkpolicy_nfta.Packets.Empty.{EmptyKernel}
use multi_networkpolicy_nfta.Nft.{
  key_iifname, key_oifname, key_l4proto, key_mark, cmp_eq, transport_header, Expr, meta, lookup,
  verdict, cmp, payload, bitwise, counter,
}
use multi_networkpolicy_nfta.Ports.{port_interval, PortSets}
use multi_networkpolicy_nfta.Ports.Union.{no_ports, InSome}
use multi_networkpolicy_nfta.Ports.Interval.{port_value, PutsBigEndian}
use multi_networkpolicy_nfta.Fields.{ifname}
use multi_networkpolicy_nfta.Cluster.{int_val, PolicyPort}
use multi_networkpolicy_nfta.Nft.Fake.{fresh}
use multi_networkpolicy_nfta.Base.{
  leb, if◌then◌else◌, Bytes, codes, eq_bytes, pos, ℕ, ◌+◌, ◌*◌, ◌^◌, ◌≤◌, ◌≡◌, refl, sym, ap, ◌∙◌,
  ◌↔◌, Bool, true, false, ◌&&◌, none, some, List, [], ◌∷◌, arith,
}

abbrev word_value : Bytes → ℕ
word_value (a ∷ b ∷ c ∷ d ∷ []) = a + b * 2 ^ 8 + c * 2 ^ 16 + d * 2 ^ 24
word_value _ = 0

word_value-native : (n : ℕ) → word_value (fresh.native_uint32 n) ≡ n
word_value-native n = omega arith

-- the ports from 80 to 90, in every set
abbrev pub web_set : Bytes → Bytes → Bool
web_set name key = leb 80 (port_value key) && leb (port_value key) 90

abbrev pub tcp_packet : Bytes
tcp_packet = 6 ∷ []

abbrev pub simple_step : ℕ → Expr → Vm → Step
simple_step port (meta key_mark false _) vm =
    next (record vm { register = fresh.native_uint32 vm.mark })
simple_step port (meta key_mark true _) vm = next (record vm { mark = word_value vm.register })
simple_step port (bitwise _ _ _ mask xor) vm = next (record vm {
  register =
      fresh.native_uint32
        (bit_xor (bit_and (word_value vm.register) (word_value mask)) (word_value xor));
})
simple_step port (cmp cmp_eq _ operand) vm =
    if eq_bytes vm.register operand then next vm else no_match
simple_step port (counter b p) vm = next vm
simple_step port (verdict kind target) vm = decides kind target
simple_step port (meta key_l4proto false _) vm = next (record vm { register = tcp_packet })
simple_step port (payload transport_header _ _ _) vm =
    next (record vm { register = fresh.big_uint16 port })
simple_step port (lookup name _ _) vm = if web_set name vm.register then next vm else no_match
simple_step port (meta key_oifname false _) vm =
    next (record vm { register = ifname (codes "net1") })
simple_step port (meta key_iifname false _) vm =
    next (record vm { register = ifname (codes "net1") })
simple_step port _ vm = no_match

pub simple_step-Evaluates :
    (port : ℕ) → Evaluates fresh (simple_step port) web_set tcp_packet (fresh.big_uint16 port)
simple_step-Evaluates port = record {
  loads_mark = λ vm. refl;
  stores_mark =
      λ vm m lt e. ap (λ k. next (record vm { mark = k })) (ap word_value e ∙ word_value-native m);
  combines = λ vm m mask xor h k l e.
      ap (λ w. next (record vm { register = fresh.native_uint32 w }))
        (ap₂ bit_xor (ap₂ bit_and (ap word_value e ∙ word_value-native m) (word_value-native mask))
          (word_value-native xor));
  compares = λ vm operand. refl;
  counts = λ vm b p. refl;
  gives_verdict = λ vm kind target. refl;
  loads_l4proto = λ vm. refl;
  loads_dport = λ vm. refl;
  looks_up = λ vm name id. refl;
  words_differ = λ a b h k e. sym (word_value-native a) ∙ ap word_value e ∙ word_value-native b;
}

pub fresh-EmptyKernel : EmptyKernel fresh
fresh-EmptyKernel = record {
  no_rules = λ t table chain. refl;
  no_chain = λ t table name. refl;
  no_set = λ t table name. refl;
  no_failure = λ t c. refl;
  encodes_text = λ s. (s, refl);
  encodes_expr = λ e. (_, refl);
  encodes_rule = λ d. (_, refl);
}

pub two_bytes-PutsBigEndian : PutsBigEndian fresh
two_bytes-PutsBigEndian = record { spelled = λ n h. omega arith }

-- the port range of TCP from 80 to 90
abbrev pub web_ports : List PolicyPort
web_ports =
    record { protocol = none; port = some (int_val (pos 80)); end_port = some (pos 90) } ∷ []

abbrev pub web_port_sets : PortSets
web_port_sets = record no_ports { tcp = port_interval ⦃lib = fresh⦄ 80 90 }

pub web_set-holds :
    (x : ℕ) → x ≤ 65535 → (web_set [] (fresh.big_uint16 x) ≡ true) ↔ InSome web_port_sets.tcp x
web_set-holds x h = ground arith
