-- ===== src/Names.antt =====
-- Names of chains and sets: sanitizeNftChar, truncateNftName and nftNameWithSuffix of
-- pkg/server/netfilterrules.go, with what they use of unicode/utf8 and hash/fnv.
pub mod Bounds
mod Samples
use Prim.Native.Nat.{bit_xor}
use mathlib.Core.List.{foldl}
use multi_networkpolicy_nfta.Base.{
  ltb, leb, ◌==◌, if◌then◌else◌, length, take, Bytes, hex_digits, ℕ, zero, suc, ◌+◌, ◌-◌, ◌*◌, ◌%◌,
  ◌^◌, Bool, ◌&&◌, ◌||◌, List, [], ◌∷◌, ◌++◌, map,
}

-- the byte at an index; 0, which continues no sequence, past the end
abbrev byte_at : ℕ → Bytes → ℕ
byte_at i [] = 0
byte_at zero (c ∷ s) = c
byte_at (suc i) (c ∷ s) = byte_at i s

abbrev between : ℕ → ℕ → ℕ → Bool
between lo hi c = leb lo c && leb c hi

-- How many bytes the UTF-8 sequence at `c ∷ s` takes; 1 where it is invalid, as in Go.
sequence_len : ℕ → Bytes → ℕ
sequence_len c s =
    let second = byte_at 0 s in
    let tail3 = between 0x80 0xbf (byte_at 1 s) in
    let tail4 = tail3 && between 0x80 0xbf (byte_at 2 s) in
    if between 0xc2 0xdf c && between 0x80 0xbf second
    then 2
    else if (c == 0xe0 && between 0xa0 0xbf second && tail3)
        || (c == 0xed && between 0x80 0x9f second && tail3)
        || ((between 0xe1 0xec c || between 0xee 0xef c) && between 0x80 0xbf second && tail3)
    then 3
    else if (c == 0xf0 && between 0x90 0xbf second && tail4)
        || (between 0xf1 0xf3 c && between 0x80 0xbf second && tail4)
        || (c == 0xf4 && between 0x80 0x8f second && tail4)
    then 4
    else 1

abbrev rune_error : ℕ
rune_error = 0xfffd

rune_at : ℕ → Bytes → ℕ
unfolding sequence_len
rune_at c s =
    let n = sequence_len c s in
    if n == 1
    then (if ltb c 0x80 then c else rune_error)
    else if n == 2
    then c % 32 * 64 + byte_at 0 s % 64
    else if n == 3
    then c % 16 * 4096 + byte_at 0 s % 64 * 64 + byte_at 1 s % 64
    else c % 8 * 262144 + byte_at 0 s % 64 * 4096 + byte_at 1 s % 64 * 64 + byte_at 2 s % 64

-- The runes of `for _, r := range s`, with `skip` bytes of the current sequence still to pass.
runes_from : ℕ → Bytes → List ℕ
unfolding rune_at
runes_from skip [] = []
runes_from (suc skip) (c ∷ s) = runes_from skip s
runes_from zero (c ∷ s) = rune_at c s ∷ runes_from (sequence_len c s - 1) s

pub sanitize_nft_char : ℕ → ℕ
sanitize_nft_char r =
    if between b'a' b'z' r
      || between b'A' b'Z' r
      || between b'0' b'9' r
      || r == b'_'
      || r == b'-'
      || r == b'.'
    then r
    else b'_'

-- strings.Map(sanitizeNftChar, name): every rune becomes a single byte
pub sanitize : Bytes → Bytes
unfolding runes_from sanitize_nft_char
sanitize name = map sanitize_nft_char (runes_from 0 name)

fnv32a_step : ℕ → ℕ → ℕ
fnv32a_step h c = bit_xor h c * 16777619 % 2 ^ 32

-- fnv.New32a(), Write, Sum32
unfoldable pub fnv32a : Bytes → ℕ
unfolding fnv32a_step
fnv32a = foldl fnv32a_step 2166136261

abbrev pub nft_name_max_len : ℕ
nft_name_max_len = 255

-- `maxLen` is an int there; a negative one is 0 here, and both give the empty name.
unfoldable pub truncate_nft_name : Bytes → ℕ → Bytes
unfolding sanitize fnv32a
truncate_nft_name name max_len =
    let sanitized = sanitize name in
    let hash = hex_digits 8 (fnv32a name) in
    let suffix = b'-' ∷ hash in
    if max_len == 0
    then []
    else if leb (length sanitized) max_len
    then sanitized
    else if leb max_len (length suffix)
    then (if ltb max_len (length hash) then take max_len hash else hash)
    else take (max_len - length suffix) sanitized ++ suffix

unfoldable pub nft_name_with_suffix : Bytes → Bytes → Bytes → Bytes
nft_name_with_suffix base separator suffix =
    let sanitized_separator = sanitize separator in
    let sanitized_suffix = sanitize suffix in
    let suffix_len = length sanitized_separator + length sanitized_suffix in
    if suffix_len == 0
    then truncate_nft_name base nft_name_max_len
    else if leb nft_name_max_len suffix_len
    then truncate_nft_name (base ++ (sanitized_separator ++ sanitized_suffix)) nft_name_max_len
    else truncate_nft_name base (nft_name_max_len - suffix_len)
      ++ (sanitized_separator ++ sanitized_suffix)
