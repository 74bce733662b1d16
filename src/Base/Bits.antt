-- ===== src/Base/Bits.antt =====
-- The bits of a number, and those of `bit_and` and `bit_xor`.
use Prim.Native.Nat.{
  ℕ, zero, suc, ◌+◌, ◌*◌, ◌/◌, ◌%◌, ◌≤◌, ◌<◌, ◌^◌, min, digits, differ, bit_and, bit_xor,
  bit_and-bitwise, bit_xor-bitwise,
}
use mathlib.Core.Path.{◌≡◌, refl, ◌∙◌, ap}
use mathlib.Core.Bool.{Bool, true, ◌&&◌}
use native.Mathlib.Nat.{le_refl, pow-suc}
use native.Mathlib.Omega.{arith}

-- the bit of weight 2 ^ k
abbrev pub test_bit : ℕ → ℕ → ℕ
test_bit n zero = n % 2
test_bit n (suc k) = test_bit (n / 2) k

module _ (on_zero : ℕ → ℕ) (f : ℕ → ℕ → ℕ) where
  more_fuel : (n m a b : ℕ) → a ≤ n → a ≤ m → digits on_zero f n a b ≡ digits on_zero f m a b
  more_fuel zero zero a b p q = refl
  more_fuel zero (suc m) zero b p q = refl
  more_fuel zero (suc m) (suc a) b p q = absurd (omega arith)
  more_fuel (suc n) zero zero b p q = refl
  more_fuel (suc n) zero (suc a) b p q = absurd (omega arith)
  more_fuel (suc n) (suc m) zero b p q = refl
  more_fuel (suc n) (suc m) (suc a) b p q =
      ap (λ d. d * 2 + f (suc a % 2) (b % 2))
        (more_fuel n m (suc a / 2) (b / 2) (omega arith) (omega arith))

  lowest_digit :
      (a b : ℕ)
      → digits on_zero f (suc a) (suc a) b
        ≡ digits on_zero f (suc a / 2) (suc a / 2) (b / 2) * 2 + f (suc a % 2) (b % 2)
  lowest_digit a b =
      ap (λ d. d * 2 + f (suc a % 2) (b % 2))
        (more_fuel a (suc a / 2) (suc a / 2) (b / 2) (omega arith) (le_refl _))

bit_and_lowest : (a b : ℕ) → bit_and a b ≡ bit_and (a / 2) (b / 2) * 2 + min (a % 2) (b % 2)
bit_and_lowest zero b = simp bit_and-bitwise (omega arith)
bit_and_lowest (suc a) b = simp bit_and-bitwise (lowest_digit (λ y. 0) min a b)

bit_xor_lowest : (a b : ℕ) → bit_xor a b ≡ bit_xor (a / 2) (b / 2) * 2 + differ (a % 2) (b % 2)
bit_xor_lowest zero b = simp bit_xor-bitwise (omega arith)
bit_xor_lowest (suc a) b = simp bit_xor-bitwise (lowest_digit (λ y. y) differ a b)

differ-lt : (a b : ℕ) → a < 2 → b < 2 → differ a b < 2
differ-lt zero b h k = k
differ-lt (suc zero) zero h k = omega arith
differ-lt (suc zero) (suc zero) h k = omega arith
differ-lt (suc zero) (suc (suc b)) h k = absurd (omega arith)
differ-lt (suc (suc a)) b h k = absurd (omega arith)

pub test_bit-bit_and : (k a b : ℕ) → test_bit (bit_and a b) k ≡ min (test_bit a k) (test_bit b k)
test_bit-bit_and zero a b = omega (arith, bit_and_lowest a b)
test_bit-bit_and (suc k) a b =
    let half : bit_and a b / 2 ≡ bit_and (a / 2) (b / 2) = omega (arith, bit_and_lowest a b) in
    ap (λ n. test_bit n k) half ∙ test_bit-bit_and k (a / 2) (b / 2)

pub test_bit-bit_xor : (k a b : ℕ) → test_bit (bit_xor a b) k ≡ differ (test_bit a k) (test_bit b k)
test_bit-bit_xor zero a b =
    omega (arith, bit_xor_lowest a b, differ-lt (a % 2) (b % 2) (omega arith) (omega arith))
test_bit-bit_xor (suc k) a b =
    let half : bit_xor a b / 2 ≡ bit_xor (a / 2) (b / 2) =
      omega (arith, bit_xor_lowest a b, differ-lt (a % 2) (b % 2) (omega arith) (omega arith)) in
    ap (λ n. test_bit n k) half ∙ test_bit-bit_xor k (a / 2) (b / 2)

-- a test that holds of all numbers below a bound
abbrev pub all_below : ℕ → (ℕ → Bool) → Bool
all_below zero p = true
all_below (suc n) p = p n && all_below n p

pub all_below-lt : (n : ℕ) (p : ℕ → Bool) (x : ℕ) → all_below n p ≡ true → x < n → p x ≡ true
all_below-lt zero p x h lt = absurd (omega arith)
all_below-lt (suc n) p x h lt = ground (arith, all_below-lt n p x)

-- Bounds.
pub bit_and-lt : (k a b : ℕ) → a < 2 ^ k → bit_and a b < 2 ^ k
bit_and-lt zero a b h = let e : a ≡ 0 = omega arith in rw e (simp bit_and-bitwise (omega arith))
bit_and-lt (suc k) a b h = omega (
  arith,
  pow-suc 2 k,
  bit_and_lowest a b,
  bit_and-lt k (a / 2) (b / 2) (omega (arith, pow-suc 2 k)),
)

pub bit_xor-lt : (k a b : ℕ) → a < 2 ^ k → b < 2 ^ k → bit_xor a b < 2 ^ k
bit_xor-lt zero a b h l =
    let e : a ≡ 0 = omega arith in let f : b ≡ 0 = omega arith in rw (e, f) (omega arith)
bit_xor-lt (suc k) a b h l = omega (
  arith,
  pow-suc 2 k,
  bit_xor_lowest a b,
  differ-lt (a % 2) (b % 2) (omega arith) (omega arith),
  bit_xor-lt k (a / 2) (b / 2) (omega (arith, pow-suc 2 k)) (omega (arith, pow-suc 2 k)),
)

bit_xor-zero_fuel : (n a : ℕ) → a ≤ n → bit_xor a 0 ≡ a
bit_xor-zero_fuel zero a h = let e : a ≡ 0 = omega arith in rw e refl
bit_xor-zero_fuel (suc n) a h = omega (
  arith,
  bit_xor_lowest a 0,
  differ-zero (a % 2) (omega arith),
  bit_xor-zero_fuel n (a / 2) (omega arith),
)
  where
    differ-zero : (d : ℕ) → d < 2 → differ d 0 ≡ d
    differ-zero zero l = refl
    differ-zero (suc d) l = refl

pub bit_xor-zero : (a : ℕ) → bit_xor a 0 ≡ a
bit_xor-zero a = bit_xor-zero_fuel a a (le_refl _)

-- the number without its lowest k bits, and with k more
abbrev pub halve : ℕ → ℕ → ℕ
halve zero n = n
halve (suc k) n = halve k (n / 2)

abbrev pub shift : ℕ → ℕ → ℕ
shift zero n = n
shift (suc k) n = shift k n * 2

pub bit_and-shift : (k a b : ℕ) → bit_and a (shift k b) ≡ shift k (bit_and (halve k a) b)
bit_and-shift zero a b = refl
bit_and-shift (suc k) a b =
    omega (arith, bit_and_lowest a (shift k b * 2), bit_and-shift k (a / 2) b, half)
  where
    half : bit_and (a / 2) (shift k b * 2 / 2) ≡ bit_and (a / 2) (shift k b)
    half = ap (bit_and (a / 2)) (omega arith)

bit_and-nothing : (n a : ℕ) → a ≤ n → bit_and a 0 ≡ 0
bit_and-nothing zero a h = let e : a ≡ 0 = omega arith in rw e refl
bit_and-nothing (suc n) a h =
    omega (arith, bit_and_lowest a 0, bit_and-nothing n (a / 2) (omega arith))

pub bit_and-three : (n : ℕ) → bit_and n 3 ≡ n % 4
bit_and-three n = omega (
  arith,
  bit_and_lowest n 3,
  bit_and_lowest (n / 2) 1,
  bit_and-nothing (n / 2 / 2) (n / 2 / 2) (le_refl _),
)
