-- ===== src/Names/Bounds.antt =====
-- What every name of a chain or set satisfies, whatever the policy is called: the length that
-- nftables allows, and the bytes that it allows.
use multi_networkpolicy_nfta.Names.{
  runes_from, sanitize_nft_char, sanitize, fnv32a, nft_name_max_len, truncate_nft_name,
  nft_name_with_suffix,
}
use multi_networkpolicy_nfta.Base.{
  ltb, leb, ◌==◌, Bool-cases, length, take, All, length-append, length-take, All-append, All-take,
  Bytes, hex_digits, length-hex_digits, IsHexByte, hex_digits-IsHexByte, ℕ, ◌+◌, ◌-◌, ◌≤◌, ◌≡◌,
  refl, inl, inr, true, ◌&&◌, ◌||◌, List, [], ◌∷◌, ◌++◌, map, arith,
}

-- The truncated name is never longer than the limit it was given.
pub length-truncate_nft_name-le :
    (name : Bytes) (max_len : ℕ) → length (truncate_nft_name name max_len) ≤ max_len
unfolding truncate_nft_name
length-truncate_nft_name-le name max_len =
    let hash = hex_digits 8 (fnv32a name) in
    let rest = take (max_len - length (b'-' ∷ hash)) (sanitize name) in
    ground (
      arith,
      length-hex_digits 8 (fnv32a name),
      length-take {0} max_len hash,
      length-take {0} (max_len - length (b'-' ∷ hash)) (sanitize name),
      length-append {0} rest (b'-' ∷ hash),
    )

-- A name with a suffix fits in the 255 bytes that nftables allows, whatever it is made from.
pub length-nft_name_with_suffix-le :
    (base separator suffix : Bytes)
    → length (nft_name_with_suffix base separator suffix) ≤ nft_name_max_len
unfolding nft_name_with_suffix
length-nft_name_with_suffix-le base separator suffix =
    let sep = sanitize separator in
    let suf = sanitize suffix in
    let room = nft_name_max_len - (length sep + length suf) in
    ground (
      arith,
      length-truncate_nft_name-le base nft_name_max_len,
      length-truncate_nft_name-le base room,
      length-truncate_nft_name-le (base ++ (sep ++ suf)) nft_name_max_len,
      length-append {0} (truncate_nft_name base room) (sep ++ suf),
      length-append {0} sep suf,
    )

-- The bytes of a name: letters, digits, underscore, dash and dot.
abbrev pub IsNftByte : ℕ → Type 0
IsNftByte c =
    ((leb b'a' c && leb c b'z')
      || (leb b'A' c && leb c b'Z')
      || (leb b'0' c && leb c b'9')
      || c == b'_'
      || c == b'-'
      || c == b'.')
    ≡ true

sanitize_nft_char-IsNftByte : (r : ℕ) → IsNftByte (sanitize_nft_char r)
unfolding sanitize_nft_char
sanitize_nft_char-IsNftByte r = ground arith

map-IsNftByte : (rs : List ℕ) → All IsNftByte (map sanitize_nft_char rs)
map-IsNftByte [] = tt
map-IsNftByte (r ∷ rs) = (sanitize_nft_char-IsNftByte r, map-IsNftByte rs)

sanitize-IsNftByte : (name : Bytes) → All IsNftByte (sanitize name)
unfolding sanitize
sanitize-IsNftByte name = map-IsNftByte (runes_from 0 name)

All-weaken : (P Q : ℕ → Type 0) (xs : Bytes) → ((c : ℕ) → P c → Q c) → All P xs → All Q xs
All-weaken P Q [] f h = tt
All-weaken P Q (x ∷ xs) f h = (f x h.0, All-weaken P Q xs f h.1)

IsHexByte-IsNftByte : (c : ℕ) → IsHexByte c → IsNftByte c
IsHexByte-IsNftByte c h = ground arith

hash-IsNftByte : (n : ℕ) → All IsNftByte (hex_digits 8 n)
hash-IsNftByte n =
    All-weaken IsHexByte IsNftByte (hex_digits 8 n) IsHexByte-IsNftByte (hex_digits-IsHexByte 8 n)

-- Whatever the name is, the truncated one is made of letters, digits, `_`, `-` and `.` alone.
pub truncate_nft_name-IsNftByte :
    (name : Bytes) (max_len : ℕ) → All IsNftByte (truncate_nft_name name max_len)
unfolding truncate_nft_name
truncate_nft_name-IsNftByte name max_len =
    let hash = hex_digits 8 (fnv32a name) in
    let ok = hash-IsNftByte (fnv32a name) in
    let sanitized = sanitize-IsNftByte name in
    let n = max_len - length (b'-' ∷ hash) in
    elim (Bool-cases (max_len == 0)) [
      | inl e ↦ rw e tt
      | inr e ↦ rw e (elim (Bool-cases (leb (length (sanitize name)) max_len)) [
        | inl e' ↦ rw e' sanitized
        | inr e' ↦ rw e' (elim (Bool-cases (leb max_len (length (b'-' ∷ hash)))) [
          | inl d ↦ rw d (elim (Bool-cases (ltb max_len (length hash))) [
            | inl c ↦ rw c (All-take IsNftByte max_len hash ok)
            | inr c ↦ rw c ok
          ])
          | inr d ↦ rw d (
              All-append IsNftByte (take n (sanitize name)) (b'-' ∷ hash)
                (All-take IsNftByte n (sanitize name) sanitized) (refl, ok))
        ])
      ])
    ]
