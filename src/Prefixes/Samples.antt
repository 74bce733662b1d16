-- ===== src/Prefixes/Samples.antt =====
-- The prefix 10.1.0.0/16.
use multi_networkpolicy_nfta.Nft.{Prefix}
use multi_networkpolicy_nfta.Nft.Fake.{fresh}
use multi_networkpolicy_nfta.Prefixes.{masked, convert_prefix_to_set}
use multi_networkpolicy_nfta.Prefixes.Interval.{Spans, LastIp, convert_prefix_to_set-Spans}
use multi_networkpolicy_nfta.Base.{◌+◌, ◌-◌, ◌*◌, ◌%◌, ◌^◌, ◌≡◌, refl, ◌↔◌, true, arith}

abbrev ten_one : Prefix
ten_one = record { addr = record { is4 = true; value = 10 * 2 ^ 24 + 2 ^ 16 + 7 }; bits = 16 }

fresh-LastIp : LastIp fresh
fresh-LastIp p h = refl

convert_prefix_to_set-Spans_example :
    Spans (convert_prefix_to_set ten_one) (10 * 2 ^ 24 + 2 ^ 16 + 5)
    ↔ (10 * 2 ^ 24 + 2 ^ 16 + 5 - (10 * 2 ^ 24 + 2 ^ 16 + 5) % 2 ^ 16 ≡ (masked ten_one).value)
convert_prefix_to_set-Spans_example =
    convert_prefix_to_set-Spans fresh-LastIp ten_one (10 * 2 ^ 24 + 2 ^ 16 + 5) (omega arith)
      (omega arith) (omega arith)
