-- ===== src/Prefixes/Interval.antt =====
-- Which addresses the elements of a prefix let through.
use mathlib.Core.List.{foldl, foldl-append}
use mathlib.Core.Path.{subst}
use native.Mathlib.Nat.{pow-suc}
use multi_networkpolicy_nfta.Nft.{SetElement, Addr, Prefix, Libraries}
use multi_networkpolicy_nfta.Fields.{plain_element, end_element}
use multi_networkpolicy_nfta.Prefixes.{width, as_slice, masked, unspecified, convert_prefix_to_set}
use multi_networkpolicy_nfta.Base.{
  ltb, if◌then◌else◌, Bytes, big_endian, pow-pos, block_of, in_block, block-le, ℕ, zero, suc, ◌+◌,
  ◌-◌, ◌*◌, ◌/◌, ◌%◌, ◌^◌, ◌≤◌, ◌<◌, ◌≡◌, refl, ap, ◌∙◌, ◌↔◌, ◌⊎◌, inl, inr, Bool, true, false,
  Option, none, some, List, [], ◌∷◌, ◌++◌, arith,
}

-- The number that bytes spell, most significant first.
abbrev pub big_value : Bytes → ℕ
big_value = foldl (λ acc c. acc * 256 + c) 0

big_value-snoc : (s : Bytes) (c : ℕ) → big_value (s ++ (c ∷ [])) ≡ big_value s * 256 + c
big_value-snoc s c = rw foldl-append

big_value-big_endian : (k n : ℕ) → n < 256 ^ k → big_value (big_endian k n) ≡ n
unfolding big_endian
big_value-big_endian zero n h = omega arith
big_value-big_endian (suc k) n h =
    big_value-snoc (big_endian k (n / 256)) (n % 256)
    ∙ (rw (big_value-big_endian k (n / 256) (smaller h)) (omega arith))
  where
    smaller : n < 256 ^ suc k → n / 256 < 256 ^ k
    smaller p = omega (arith, pow-suc 256 k)

-- An address lies in the half-open interval that an element begins and an end element closes; an
-- end at 0 lies past the last address.
abbrev pub Spans : List SetElement → ℕ → Type 0
Spans (a ∷ b ∷ []) x = (big_value a.key ≤ x) × ((x < big_value b.key) ⊎ (big_value b.key ≡ 0))
Spans _ x = ⊥

-- What the library's last address of a prefix is: the masked address with all host bits set.
abbrev pub LastIp : Libraries → Type 0
LastIp lib =
    (p : Prefix)
    → p.bits ≤ width p.addr
    → lib.prefix_last_ip p
      ≡ record { is4 = p.addr.is4; value = (masked p).value + 2 ^ (width p.addr - p.bits) - 1 }

-- Where the interval of a prefix whose last address is `last` ends: at 0 past the last address.
abbrev bound : ℕ → ℕ → ℕ
bound w last = if ltb (last + 1) (2 ^ w) then last + 1 else 0

ltb_cases : (a b : ℕ) → ((ltb a b ≡ true) × (a < b)) ⊎ ((ltb a b ≡ false) × (b ≤ a))
ltb_cases a b = ground arith

block_spans :
    (w size start x : ℕ)
    → 0 < size
    → start - start % size + size ≤ 2 ^ w
    → x < 2 ^ w
    → (start - start % size ≤ x)
        × ((x < bound w (start - start % size + size - 1))
            ⊎ (bound w (start - start % size + size - 1) ≡ 0))
      ↔ (x - x % size ≡ start - start % size)
block_spans w size start x h fits below =
    let first = start - start % size in
    elim (ltb_cases (first + size - 1 + 1) (2 ^ w)) [
      | inl (t, inside) ↦ rw t (
        (λ (lo, e). elim e [
          | inl up ↦ block_of size start x h lo (omega arith)
          | inr up ↦ absurd (omega arith)
        ]),
        (λ e. let (lo, up) = in_block size start x h e in (lo, inl (omega arith))),
      )
      | inr (t, outside) ↦ rw t (
        (λ (lo, e). block_of size start x h lo (omega arith)),
        (λ e. let (lo, up) = in_block size start x h e in (lo, inr refl)),
      )
    ]

Spans-elements :
    {P : Type 0}
    → (k first end x : ℕ) → first < 256 ^ k
    → end < 256 ^ k
    → (first ≤ x) × ((x < end) ⊎ (end ≡ 0)) ↔ P
    → Spans (plain_element (big_endian k first) ∷ end_element (big_endian k end) ∷ []) x ↔ P
Spans-elements k first end x h1 h2 p =
    rw (big_value-big_endian k first h1, big_value-big_endian k end h2) p

closing :
    (inside is4 : Bool) (value : ℕ)
    → (elim (if◌then◌else◌ {A = Option Addr} inside
        (some (record { is4 = is4; value = value }))
        none) [
          | none ↦ end_element (as_slice (unspecified is4)) ∷ []
          | some last ↦ end_element (as_slice last) ∷ []
        ])
      ≡ end_element (big_endian (if is4 then 4 else 16) (if inside then value else 0)) ∷ []
closing true is4 value = refl
closing false is4 value = refl

block_fits :
    (w bits start : ℕ)
    → bits ≤ w
    → start < 2 ^ w
    → start - start % 2 ^ (w - bits) + 2 ^ (w - bits) ≤ 2 ^ w
block_fits w bits start h below =
    let e : w - bits + bits ≡ w = omega arith in
    subst (λ (v : ℕ). start - start % 2 ^ (w - bits) + 2 ^ (w - bits) ≤ 2 ^ v) e
      (block-le (w - bits) bits start (rw e below))

key_size : (is4 : Bool) → 256 ^ (if is4 then 4 else 16) ≡ 2 ^ (if is4 then 32 else 128)
key_size true = refl
key_size false = refl

bound-lt : (w last : ℕ) → bound w last < 2 ^ w
bound-lt w last = elim (ltb_cases (last + 1) (2 ^ w)) [
  | inl (t, inside) ↦ rw t inside
  | inr (t, _) ↦ rw t (pow-pos w)
]

module _ ⦃lib : Libraries⦄ where
  elements_of :
      LastIp lib
      → (p : Prefix) → p.bits ≤ width p.addr
      → (k : ℕ) → k ≡ (if p.addr.is4 then 4 else 16)
      → let last = (masked p).value + 2 ^ (width p.addr - p.bits) - 1 in
        convert_prefix_to_set p
        ≡ plain_element (big_endian k (masked p).value)
          ∷ end_element (big_endian k (bound (width p.addr) last))
          ∷ []
  unfolding convert_prefix_to_set
  elements_of law p h k e =
      rw (e, law p h)
        (ap (λ rest. plain_element (as_slice (masked p)) ∷ rest)
          (closing (ltb (_ + 1) (2 ^ width p.addr)) p.addr.is4 _))

  -- The two elements of a prefix span the addresses of the prefix and no other: under the library's
  -- law on the last address, for an address `x` of the family and a prefix whose own address is
  -- one of the family, whose length is at most the family's width, `x` lies in the interval iff
  -- `x` with its host bits cleared is the masked address. At the end of the address space too.
  pub convert_prefix_to_set-Spans :
      LastIp lib
      → (p : Prefix) (x : ℕ) → p.bits ≤ width p.addr
      → p.addr.value < 2 ^ width p.addr
      → x < 2 ^ width p.addr
      → Spans (convert_prefix_to_set p) x ↔ (x - x % 2 ^ (width p.addr - p.bits) ≡ (masked p).value)
  convert_prefix_to_set-Spans law p x h start below =
      let size = 2 ^ (width p.addr - p.bits) in
      let k : ℕ = if p.addr.is4 then 4 else 16 in
      let fits : (masked p).value + size ≤ 2 ^ width p.addr =
        block_fits (width p.addr) p.bits p.addr.value h start in
      rw (elements_of law p h (if p.addr.is4 then 4 else 16) refl) (
        Spans-elements k (masked p).value (bound (width p.addr) ((masked p).value + size - 1)) x
          (rw (key_size p.addr.is4) (omega (arith, pow-pos (width p.addr - p.bits))))
          (rw (key_size p.addr.is4) (bound-lt (width p.addr) _))
          (block_spans (width p.addr) size p.addr.value x (pow-pos (width p.addr - p.bits)) fits
            below))
