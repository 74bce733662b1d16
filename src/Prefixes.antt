-- ===== src/Prefixes.antt =====
-- CIDR prefixes as elements of interval sets: convertPrefixToSet and getPrefixesAsSetInterval of
-- pkg/server/netfilterrules.go, with what they use of net/netip.
pub mod Interval
mod Samples
use multi_networkpolicy_nfta.Nft.{SetElement, Addr, Prefix, Libraries}
use multi_networkpolicy_nfta.Fields.{plain_element, end_element}
use multi_networkpolicy_nfta.Base.{
  ltb, ◌==◌, if◌then◌else◌, Bytes, big_endian, bad_prefix, Result, ok, err, ℕ, suc, ◌+◌, ◌-◌, ◌%◌,
  ◌^◌, Bool, Option, none, some, List, [], ◌∷◌, ◌++◌,
}

abbrev pub width : Addr → ℕ
width a = if a.is4 then 32 else 128

-- Addr.AsSlice
abbrev pub as_slice : Addr → Bytes
as_slice a = big_endian (if a.is4 then 4 else 16) a.value

-- Prefix.Masked().Addr()
abbrev pub masked : Prefix → Addr
masked p = record {
  is4 = p.addr.is4;
  value = p.addr.value - p.addr.value % 2 ^ (width p.addr - p.bits);
}

-- Addr.Next; `none` is the zero Addr, past the last address
abbrev pub next_addr : Addr → Option Addr
next_addr a =
    if ltb (a.value + 1) (2 ^ width a)
    then some (record { is4 = a.is4; value = a.value + 1 })
    else none

-- netip.IPv4Unspecified, netip.IPv6Unspecified
abbrev pub unspecified : Bool → Addr
unspecified is4 = record { is4 = is4; value = 0 }

module _ ⦃lib : Libraries⦄ where
  unfoldable pub convert_prefix_to_set : Prefix → List SetElement
  convert_prefix_to_set prefix =
      let first = masked prefix in
      plain_element (as_slice first) ∷ (elim (next_addr (lib.prefix_last_ip prefix)) [
        | none ↦ end_element (as_slice (unspecified first.is4)) ∷ []
        | some last ↦ end_element (as_slice last) ∷ []
      ])

  -- the extra first element where the prefix stands first, then its own
  abbrev prefix_elements : ℕ → Prefix → List SetElement
  prefix_elements index net =
      (if index == 0 then end_element (as_slice (unspecified net.addr.is4)) ∷ [] else [])
      ++ convert_prefix_to_set net

  -- One round of the loop: the elements go to the list of their family.
  abbrev add_prefix :
      ℕ → Prefix → List SetElement × List SetElement → List SetElement × List SetElement
  add_prefix index net (v4, v6) =
      if net.addr.is4
      then (v4 ++ prefix_elements index net, v6)
      else (v4, v6 ++ prefix_elements index net)

  prefixes_from :
      ℕ
      → List Bytes
      → List SetElement × List SetElement
      → Result (List SetElement × List SetElement)
  prefixes_from index [] acc = ok acc
  prefixes_from index (text ∷ rest) acc = elim (lib.parse_prefix text) [
    | none ↦ err bad_prefix
    | some net ↦ prefixes_from (suc index) rest (add_prefix index net acc)
  ]

  -- the elements for IPv4 and those for IPv6
  unfoldable pub get_prefixes_as_set_interval :
      List Bytes → Result (List SetElement × List SetElement)
  unfolding prefixes_from
  get_prefixes_as_set_interval prefixes = prefixes_from 0 prefixes ([], [])
