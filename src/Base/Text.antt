-- ===== src/Base/Text.antt =====
-- Go strings as lists of bytes, and what the source uses of the packages strings, strconv and fmt.
use Prim.Native.Nat.{ℕ, zero, suc, ◌+◌, ◌/◌, ◌%◌, ◌<◌}
use Prim.Native.Char.{code}
use Prim.Native.String.{String}
use mathlib.Core.Path.{◌≡◌, refl}
use mathlib.Core.Logic.{◌↔◌}
use mathlib.Core.Bool.{Bool, true, false, ◌&&◌, ◌||◌}
use mathlib.Core.List.{List, [], ◌∷◌, ◌++◌}
use native.Mathlib.Omega.{arith}
use multi_networkpolicy_nfta.Base.Tests.{leb, ltb, ◌==◌, if◌then◌else◌}
use multi_networkpolicy_nfta.Base.Lists.{any, length, length-append, All, All-append}

abbrev pub Bytes : Type 0
Bytes = List ℕ

-- The bytes of an ASCII literal.
abbrev pub codes : String → Bytes
codes String.[] = []
codes (String.◌∷◌ c s) = code c ∷ codes s

abbrev pub eq_bytes : Bytes → Bytes → Bool
eq_bytes [] [] = true
eq_bytes [] (b ∷ bs) = false
eq_bytes (a ∷ r) [] = false
eq_bytes (a ∷ r) (b ∷ bs) = a == b && eq_bytes r bs

pub eq_bytes_iff : (a b : Bytes) → (eq_bytes a b ≡ true) ↔ (a ≡ b)
eq_bytes_iff [] [] = (λ _. refl, λ _. refl)
eq_bytes_iff [] (b ∷ bs) = (λ h. cc, λ h. cc)
eq_bytes_iff (a ∷ r) [] = (λ h. cc, λ h. cc)
eq_bytes_iff (a ∷ r) (b ∷ bs) = ground (arith, eq_bytes_iff r bs)

-- slices.Contains for strings
abbrev pub mem_bytes : Bytes → List Bytes → Bool
mem_bytes a = any (eq_bytes a)

-- strings.HasPrefix(s, prefix)
abbrev pub has_prefix : Bytes → Bytes → Bool
has_prefix s [] = true
has_prefix [] (p ∷ ps) = false
has_prefix (c ∷ s) (p ∷ ps) = c == p && has_prefix s ps

-- strings.Compare(a, b) <= 0
abbrev pub le_bytes : Bytes → Bytes → Bool
le_bytes [] b = true
le_bytes (a ∷ r) [] = false
le_bytes (a ∷ r) (b ∷ bs) = ltb a b || (a == b && le_bytes r bs)

-- strings.ReplaceAll(s, old, new) for a single byte `old`
abbrev pub replace_byte : ℕ → Bytes → Bytes → Bytes
replace_byte old new [] = []
replace_byte old new (c ∷ s) = (if c == old then new else c ∷ []) ++ replace_byte old new s

abbrev push_front : ℕ → List Bytes → List Bytes
push_front c [] = (c ∷ []) ∷ []
push_front c (w ∷ ws) = (c ∷ w) ∷ ws

-- strings.Split(s, sep) for a single byte `sep`; the result is never empty
abbrev pub split_byte : ℕ → Bytes → List Bytes
split_byte sep [] = [] ∷ []
split_byte sep (c ∷ s) =
    let rest = split_byte sep s in if c == sep then [] ∷ rest else push_front c rest

-- `%d` of a number, most significant digit first
unfoldable pub decimal_digits : ℕ → ℕ → Bytes
decimal_digits zero n = []
decimal_digits (suc fuel) n =
    let high = decimal_digits fuel (n / 10) in
    if ltb n 10 then (n + b'0') ∷ [] else high ++ ((n % 10 + b'0') ∷ [])

unfoldable pub decimal : ℕ → Bytes
unfolding decimal_digits
decimal n = decimal_digits (suc n) n

abbrev hex_digit : ℕ → ℕ
hex_digit d = if ltb d 10 then d + b'0' else d + 87

-- the last `k` hexadecimal digits of a number: `%08x` of a uint32 with `k` = 8
unfoldable pub hex_digits : ℕ → ℕ → Bytes
hex_digits zero n = []
hex_digits (suc k) n = hex_digits k (n / 16) ++ (hex_digit (n % 16) ∷ [])

abbrev trim_zeros : Bytes → Bytes
trim_zeros [] = []
trim_zeros (c ∷ []) = c ∷ []
trim_zeros (c ∷ d ∷ s) = let rest = trim_zeros (d ∷ s) in if c == b'0' then rest else c ∷ d ∷ s

-- `%x` of a uint32
unfoldable pub hex : ℕ → Bytes
unfolding hex_digits
hex n = trim_zeros (hex_digits 8 n)

pub length-hex_digits : (k n : ℕ) → length (hex_digits k n) ≡ k
unfolding hex_digits
length-hex_digits zero n = refl
length-hex_digits (suc k) n = omega (
  arith,
  length-append {0} (hex_digits k (n / 16)) (hex_digit (n % 16) ∷ []),
  length-hex_digits k (n / 16),
)

-- the bytes `0` to `9` and `a` to `f`
abbrev pub IsHexByte : ℕ → Type 0
IsHexByte c = (leb b'0' c && leb c b'9') || (leb b'a' c && leb c b'f') ≡ true

hex_digit-IsHexByte : (d : ℕ) → d < 16 → IsHexByte (hex_digit d)
hex_digit-IsHexByte d h = ground arith

pub hex_digits-IsHexByte : (k n : ℕ) → All IsHexByte (hex_digits k n)
unfolding hex_digits
hex_digits-IsHexByte zero n = tt
hex_digits-IsHexByte (suc k) n =
    All-append IsHexByte (hex_digits k (n / 16)) (hex_digit (n % 16) ∷ [])
      (hex_digits-IsHexByte k (n / 16)) (hex_digit-IsHexByte (n % 16) (omega arith), tt)

-- the last `k` bytes of a number, most significant first
unfoldable pub big_endian : ℕ → ℕ → Bytes
big_endian zero n = []
big_endian (suc k) n = big_endian k (n / 256) ++ (n % 256 ∷ [])
