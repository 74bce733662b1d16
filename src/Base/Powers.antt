-- ===== src/Base/Powers.antt =====
-- Powers of two and blocks of numbers of one size.
use Prim.Native.Nat.{ℕ, zero, suc, ◌+◌, ◌-◌, ◌*◌, ◌/◌, ◌%◌, ◌^◌, ◌≤◌, ◌<◌}
use mathlib.Core.Path.{◌≡◌, ◌∙◌, ap, sym}
use native.Mathlib.Omega.{arith}
use native.Mathlib.Nat.{
  pow-zero, mul-one, div-lt_iff_lt-mul, mul-le-mul_right, pow-suc, div-add-mod, div-eq_of_lt-le,
  mul_assoc, mul_comm,
}

pow-add : (n a b : ℕ) → n ^ (a + b) ≡ n ^ a * n ^ b
pow-add n a zero =
    let shift : a + 0 ≡ a = omega arith in
    ap (λ (k : ℕ). n ^ k) shift
    ∙ sym (mul-one (n ^ a))
    ∙ ap (λ (k : ℕ). n ^ a * k) (sym (pow-zero n))
pow-add n a (suc b) =
    let shift : a + suc b ≡ suc (a + b) = omega arith in
    ap (λ (k : ℕ). n ^ k) shift
    ∙ pow-suc n (a + b)
    ∙ ap (λ (k : ℕ). k * n) (pow-add n a b)
    ∙ mul_assoc (n ^ a) (n ^ b) n
    ∙ ap (λ (k : ℕ). n ^ a * k) (sym (pow-suc n b))

pub pow-pos : (k : ℕ) → 0 < 2 ^ k
pow-pos zero = omega arith
pow-pos (suc k) = omega (arith, pow-suc 2 k, pow-pos k)

-- The numbers of a block are those that lie in it.
pub block_of :
    (size start x : ℕ)
    → 0 < size
    → start - start % size ≤ x
    → x < start - start % size + size
    → x - x % size ≡ start - start % size
block_of size start x h lo hi =
    let q = start / size in
    let e = div-add-mod start size in
    let d = div-add-mod x size in
    let same : x / size ≡ q =
      div-eq_of_lt-le {k = q} size {m = x} (grind (arith, mul_comm q size))
        (grind (arith, mul_comm q size)) in
    grind (arith, ap (λ (k : ℕ). size * k) same)

pub in_block :
    (size start x : ℕ)
    → 0 < size
    → x - x % size ≡ start - start % size
    → (start - start % size ≤ x) × (x < start - start % size + size)
in_block size start x h e = grind arith

-- A block of a power of two that begins below a greater power of two ends at or below it.
pub block-le : (a b start : ℕ) → start < 2 ^ (a + b) → start - start % 2 ^ a + 2 ^ a ≤ 2 ^ (a + b)
block-le a b start h =
    let q = start / 2 ^ a in
    let e = div-add-mod start (2 ^ a) in
    let total : 2 ^ (a + b) ≡ 2 ^ b * 2 ^ a = pow-add 2 a b ∙ mul_comm (2 ^ a) (2 ^ b) in
    let fits : q < 2 ^ b =
      (div-lt_iff_lt-mul {k = 2 ^ a} {x = start} {y = 2 ^ b} (pow-pos a)).1 (rw (sym total) h) in
    let whole : suc q * 2 ^ a ≤ 2 ^ b * 2 ^ a = mul-le-mul_right (2 ^ a) fits in
    grind (arith, mul_comm (2 ^ a) q)
