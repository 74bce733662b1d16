-- ===== src/Base/Numerals.antt =====
-- Numbers written in decimal and read back.
use Prim.Native.Nat.{ℕ, zero, suc, ◌+◌, ◌-◌, ◌*◌, ◌/◌, ◌%◌, ◌^◌, ◌<◌}
use mathlib.Core.Path.{◌≡◌, ap, ◌∙◌}
use mathlib.Core.Logic.{inl, inr}
use mathlib.Core.Bool.{true}
use mathlib.Core.Option.{some}
use mathlib.Core.List.{[], ◌∷◌, ◌++◌}
use native.Mathlib.Omega.{arith}
use multi_networkpolicy_nfta.Base.Tests.{ltb, leb, Bool-cases}
use multi_networkpolicy_nfta.Base.Text.{Bytes, decimal_digits, decimal}
use multi_networkpolicy_nfta.Base.Int.{pos, digits_value, atoi}

digits_value-snoc :
    (s : Bytes) (acc v d : ℕ)
    → digits_value acc s ≡ some v
    → d < 10
    → digits_value acc (s ++ ((d + b'0') ∷ [])) ≡ some (v * 10 + d)
unfolding digits_value
digits_value-snoc [] acc v d h k = ground arith
digits_value-snoc (c ∷ s) acc v d h k =
    ground (arith, digits_value-snoc s (acc * 10 + (c - b'0')) v d)

-- the value of the digits, where the fuel is greater than the number
decimal_digits-value : (fuel n : ℕ) → n < fuel → digits_value 0 (decimal_digits fuel n) ≡ some n
unfolding decimal_digits digits_value
decimal_digits-value zero n h = absurd (omega arith)
decimal_digits-value (suc fuel) n h = elim (Bool-cases (ltb n 10)) [
  | inl small ↦ ground (arith, small)
  | inr big ↦
      let rest = decimal_digits-value fuel (n / 10) (ground arith) in
      let whole =
        digits_value-snoc (decimal_digits fuel (n / 10)) 0 (n / 10) (n % 10) rest (omega arith) in
      let split : n / 10 * 10 + n % 10 ≡ n = omega arith in
      let read : digits_value 0 (decimal_digits fuel (n / 10) ++ ((n % 10 + b'0') ∷ [])) ≡ some n =
        whole ∙ ap some split in
      ground (arith, big, read)
]

abbrev IsDigit : ℕ → Type 0
IsDigit c = (leb b'0' c ≡ true) × (leb c b'9' ≡ true)

-- a text that begins with a digit
abbrev StartsWithDigit : Bytes → Type 0
StartsWithDigit [] = ⊥
StartsWithDigit (c ∷ s) = IsDigit c

StartsWithDigit-append : (s t : Bytes) → StartsWithDigit s → StartsWithDigit (s ++ t)
StartsWithDigit-append [] t h = absurd h
StartsWithDigit-append (c ∷ s) t h = h

decimal_digits-StartsWithDigit : (fuel n : ℕ) → n < fuel → StartsWithDigit (decimal_digits fuel n)
unfolding decimal_digits
decimal_digits-StartsWithDigit zero n h = absurd (omega arith)
decimal_digits-StartsWithDigit (suc fuel) n h = elim (Bool-cases (ltb n 10)) [
  | inl small ↦ ground (arith, small)
  | inr big ↦
      let rest = decimal_digits-StartsWithDigit fuel (n / 10) (ground arith) in
      ground (
        arith,
        big,
        StartsWithDigit-append (decimal_digits fuel (n / 10)) ((n % 10 + b'0') ∷ []) rest,
      )
]

atoi-digits :
    (s : Bytes) (n : ℕ)
    → StartsWithDigit s
    → digits_value 0 s ≡ some n
    → n < 2 ^ 63
    → atoi s ≡ some (pos n)
unfolding atoi
atoi-digits [] n h v k = absurd h
atoi-digits (c ∷ s) n h v k = ground arith

-- strconv.Atoi reads back what `%d` has written.
pub atoi-decimal : (n : ℕ) → n < 2 ^ 63 → atoi (decimal n) ≡ some (pos n)
unfolding decimal
atoi-decimal n h =
    atoi-digits (decimal_digits (suc n) n) n
      (decimal_digits-StartsWithDigit (suc n) n (omega arith))
      (decimal_digits-value (suc n) n (omega arith)) h
