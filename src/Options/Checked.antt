-- ===== src/Options/Checked.antt =====
-- What options that pass the check are like.
use mathlib.Core.Path.{subst}
use multi_networkpolicy_nfta.Options.{
  Options, trim_space, contains, parse_prefixes, parse_ip_prefix_text, check_endpoint, validate,
}
use multi_networkpolicy_nfta.Options.Trimmed.{Trimmed, trim_space-Trimmed}
use multi_networkpolicy_nfta.Nft.{Libraries}
use multi_networkpolicy_nfta.Base.{
  Bool-cases, is_empty, All, All-append, Bytes, codes, has_prefix, split_byte, ok, ◌≡◌, inl, inr,
  true, false, List, [], ◌∷◌, ◌++◌, arith,
}

module _ ⦃lib : Libraries⦄ where
  -- Options that pass the check name an endpoint that is an absolute path and no URL. It is the given
  -- text without the white space, as Unicode has it, in front and behind: what was cut off is white
  -- space, and the endpoint neither begins nor ends with any.
  pub validate-endpoint :
      (o o' : Options)
      → validate o ≡ ok o'
      → (has_prefix o'.container_runtime_endpoint (codes "/") ≡ true)
        × (contains o'.container_runtime_endpoint (codes "://") ≡ false)
        × Trimmed o.container_runtime_endpoint o'.container_runtime_endpoint
  unfolding validate check_endpoint
  validate-endpoint o o' h =
      let same : trim_space o.container_runtime_endpoint ≡ o'.container_runtime_endpoint =
        ground (arith, h) in
      (
        ground (arith, h),
        ground (arith, h),
        subst (Trimmed o.container_runtime_endpoint) same
            (trim_space-Trimmed o.container_runtime_endpoint),
      )

  parse_prefixes-All :
      (texts acc : List Bytes) (result : List Bytes)
      → parse_prefixes texts acc ≡ ok result
      → All (λ p. lib.is_cidr p ≡ true) acc
      → All (λ p. lib.is_cidr p ≡ true) result
  unfolding parse_prefixes
  parse_prefixes-All [] acc result h a = subst (All (λ p. lib.is_cidr p ≡ true)) (ground arith) a
  parse_prefixes-All (t ∷ rest) acc result h a = elim (Bool-cases (lib.is_cidr (trim_space t))) [
    | inl good ↦
        parse_prefixes-All rest (acc ++ (trim_space t ∷ [])) result (ground arith)
          (All-append (λ p. lib.is_cidr p ≡ true) acc (trim_space t ∷ []) a (good, tt))
    | inr bad ↦ absurd (ground arith)
  ]

  parse_ip_prefix_text-All :
      (text : Bytes) (old result : List Bytes)
      → is_empty text ≡ false
      → parse_ip_prefix_text text old ≡ ok result
      → All (λ p. lib.is_cidr p ≡ true) result
  unfolding parse_ip_prefix_text
  parse_ip_prefix_text-All text old result some_ h =
      parse_prefixes-All (split_byte b',' text) [] result (ground arith) tt

  validate-parts :
      (o o' : Options)
      → validate o ≡ ok o'
      → (parse_ip_prefix_text o.allow_src_prefix_text o.allow_src_prefix ≡ ok o'.allow_src_prefix)
        × (parse_ip_prefix_text o.allow_dst_prefix_text o.allow_dst_prefix ≡ ok o'.allow_dst_prefix)
  unfolding validate check_endpoint
  validate-parts o o' h = ground arith

  -- The prefixes are all valid CIDRs once the options pass the check, where they were given as texts.
  pub validate-prefixes :
      (o o' : Options)
      → validate o ≡ ok o'
      → is_empty o.allow_src_prefix_text ≡ false
      → is_empty o.allow_dst_prefix_text ≡ false
      → All (λ p. lib.is_cidr p ≡ true) o'.allow_src_prefix
        × All (λ p. lib.is_cidr p ≡ true) o'.allow_dst_prefix
  validate-prefixes o o' h src dst =
      let (s, d) = validate-parts o o' h in
      (
        parse_ip_prefix_text-All o.allow_src_prefix_text o.allow_src_prefix o'.allow_src_prefix src
            s,
        parse_ip_prefix_text-All o.allow_dst_prefix_text o.allow_dst_prefix o'.allow_dst_prefix dst
            d,
      )
