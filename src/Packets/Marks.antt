-- ===== src/Packets/Marks.antt =====
-- What the daemon's rules do to the two bits of the mark.
use Prim.Native.Nat.{bit_and, bit_xor, min, differ}
use mathlib.Core.Path.{ap₂}
use multi_networkpolicy_nfta.Packets.{word}
use multi_networkpolicy_nfta.Fields.{
  peer_rule_mark, port_rule_mark, match_rule_mark, zero_rule_mark, complement32,
}
use multi_networkpolicy_nfta.Base.{
  ◌==◌, test_bit, test_bit-bit_and, test_bit-bit_xor, all_below, bit_and-lt, bit_xor-lt,
  bit_xor-zero, halve, shift, bit_and-shift, bit_and-three, ℕ, zero, suc, ◌/◌, ◌%◌, ◌<◌, ◌≡◌, refl,
  ap, ◌∙◌, ◌↔◌, Bool, true, ◌&&◌, ◌||◌, arith,
}

-- the mark under a mask, with bits added
abbrev pub remark : ℕ → ℕ → ℕ → ℕ
remark mask xor m = bit_xor (bit_and m mask) xor

abbrev pub set_port_bit : ℕ → ℕ
set_port_bit = remark (complement32 port_rule_mark) port_rule_mark

abbrev pub set_peer_bit : ℕ → ℕ
set_peer_bit = remark (complement32 peer_rule_mark) peer_rule_mark

abbrev pub reset_bits : ℕ → ℕ
reset_bits = remark (complement32 match_rule_mark) zero_rule_mark

pub remark-lt : (mask xor m : ℕ) → m < word → xor < word → remark mask xor m < word
remark-lt mask xor m h l = bit_xor-lt 32 (bit_and m mask) xor (bit_and-lt 32 m mask h) l

test_bit-remark :
    (mask xor m k : ℕ)
    → test_bit (remark mask xor m) k
      ≡ differ (min (test_bit m k) (test_bit mask k)) (test_bit xor k)
test_bit-remark mask xor m k =
    test_bit-bit_xor k (bit_and m mask) xor
    ∙ ap (λ b. differ b (test_bit xor k)) (test_bit-bit_and k m mask)

test_bit-lt : (m k : ℕ) → test_bit m k < 2
test_bit-lt m zero = omega arith
test_bit-lt m (suc k) = test_bit-lt (m / 2) k

-- a bit that the mask keeps and the other operand leaves alone
kept_digit : (d : ℕ) → d < 2 → differ (min d 1) 0 ≡ d
kept_digit zero h = refl
kept_digit (suc zero) h = refl
kept_digit (suc (suc d)) h = absurd (omega arith)

abbrev keeps_bit : ℕ → ℕ → ℕ → Bool
keeps_bit mask xor k = test_bit mask k == 1 && test_bit xor k == 0

kept_bit :
    (mask xor m k : ℕ) → keeps_bit mask xor k ≡ true → test_bit (remark mask xor m) k ≡ test_bit m k
kept_bit mask xor m k h =
    let one : test_bit mask k ≡ 1 = ground arith in
    let none_ : test_bit xor k ≡ 0 = ground arith in
    test_bit-remark mask xor m k
    ∙ ap₂ (λ a b. differ (min (test_bit m k) a) b) one none_
    ∙ kept_digit (test_bit m k) (test_bit-lt m k)

cleared_bit :
    (mask xor m k : ℕ) → test_bit mask k ≡ 0 → test_bit (remark mask xor m) k ≡ test_bit xor k
cleared_bit mask xor m k h =
    test_bit-remark mask xor m k
    ∙ ap (λ a. differ (min (test_bit m k) a) (test_bit xor k)) h
    ∙ ap (λ a. differ a (test_bit xor k)) (min_zero (test_bit m k))
  where
    min_zero : (d : ℕ) → min d 0 ≡ 0
    min_zero d = omega arith

pub set_port_bit-bits :
    (m : ℕ) → (test_bit (set_port_bit m) 16 ≡ 1) × (test_bit (set_port_bit m) 17 ≡ test_bit m 17)
set_port_bit-bits m = (
  cleared_bit (complement32 port_rule_mark) port_rule_mark m 16 refl,
  kept_bit (complement32 port_rule_mark) port_rule_mark m 17 refl,
)

pub set_peer_bit-bits :
    (m : ℕ) → (test_bit (set_peer_bit m) 17 ≡ 1) × (test_bit (set_peer_bit m) 16 ≡ test_bit m 16)
set_peer_bit-bits m = (
  cleared_bit (complement32 peer_rule_mark) peer_rule_mark m 17 refl,
  kept_bit (complement32 peer_rule_mark) peer_rule_mark m 16 refl,
)

pub reset_bits-bits : (m : ℕ) → (test_bit (reset_bits m) 16 ≡ 0) × (test_bit (reset_bits m) 17 ≡ 0)
reset_bits-bits m = (
  cleared_bit (complement32 match_rule_mark) zero_rule_mark m 16 refl,
  cleared_bit (complement32 match_rule_mark) zero_rule_mark m 17 refl,
)

-- No rule touches another bit of the mark.
others_kept :
    all_below 32 (λ k.
      k == 16
      || (k == 17
          || (keeps_bit (complement32 port_rule_mark) port_rule_mark k
              && (keeps_bit (complement32 peer_rule_mark) peer_rule_mark k
                  && keeps_bit (complement32 match_rule_mark) zero_rule_mark k))))
    ≡ true
others_kept = refl

-- both bits are set
abbrev pub both_bits : ℕ → Bool
both_bits m = test_bit m 16 == 1 && test_bit m 17 == 1

-- the two lowest bits of a number
three_iff : (n : ℕ) → (n % 4 ≡ 3) ↔ ((n % 2 ≡ 1) × (n / 2 % 2 ≡ 1))
three_iff n = (λ h. (omega arith, omega arith), λ h. omega (arith, h.0, h.1))

under_match_mark : (m : ℕ) → remark match_rule_mark zero_rule_mark m ≡ shift 16 (halve 16 m % 4)
under_match_mark m =
    bit_xor-zero (bit_and m match_rule_mark)
    ∙ bit_and-shift 16 m 3
    ∙ ap (shift 16) (bit_and-three (halve 16 m))

pub match_mark_iff :
    (m : ℕ) → (remark match_rule_mark zero_rule_mark m ≡ match_rule_mark) ↔ (both_bits m ≡ true)
match_mark_iff m =
    let high = three_iff (halve 16 m) in
    let e = under_match_mark m in
    (
      λ h. let (p, q) = high.0 (omega (arith, h, e)) in ground (arith, p, q),
      λ h. e ∙ ap (shift 16) (high.1 (ground (arith, h), ground (arith, h))),
    )
