-- ===== src/Ports/Interval.antt =====
-- Which ports a port specification lets through.
use mathlib.Core.Path.{subst}
use native.Mathlib.Nat.{le_trans}
use multi_networkpolicy_nfta.Nft.{SetElement, Libraries}
use multi_networkpolicy_nfta.Cluster.{int_val, str_val, PolicyPort}
use multi_networkpolicy_nfta.Ports.{
  numeric_port, port_interval, checked_elements, validate_port_spec,
}
use multi_networkpolicy_nfta.Base.{
  ltb, if◌then◌else◌, Bytes, decimal, ok, ℤ, pos, negsuc, atoi, atoi-decimal, ℕ, ◌+◌, ◌*◌, ◌%◌, ◌≤◌,
  ◌<◌, ◌≡◌, refl, sym, ◌∙◌, ◌↔◌, ◌⊎◌, Option, none, some, List, [], ◌∷◌, arith,
}

-- The number that a key of two bytes spells.
abbrev pub port_value : Bytes → ℕ
port_value (hi ∷ lo ∷ []) = hi * 256 + lo
port_value _ = 0

-- `PutUint16` puts the high byte first.
pub record PutsBigEndian (lib : Libraries) : Type 0 where
  pub spelled : (n : ℕ) → n < 65536 → port_value (lib.big_uint16 n) ≡ n

-- A port lies in the half-open interval that an element begins and an end element closes; an end
-- at 0 lies past the last port.
abbrev pub Covers : List SetElement → ℕ → Type 0
Covers (a ∷ b ∷ []) x = (port_value a.key ≤ x) × ((x < port_value b.key) ⊎ (port_value b.key ≡ 0))
Covers _ x = ⊥

-- the last port of a specification with its first port
abbrev pub last_port : Option ℤ → ℕ → ℕ
last_port (some (pos e)) first = if ltb first e then e else first
last_port _ first = first

first-le-last_port : (ep : Option ℤ) (first : ℕ) → first ≤ last_port ep first
first-le-last_port none first = omega arith
first-le-last_port (some (negsuc e)) first = omega arith
first-le-last_port (some (pos e)) first = ground arith

module _ ⦃lib : Libraries⦄ where
  pub Covers-port_interval :
      (puts : PutsBigEndian lib) (first last x : ℕ)
      → first ≤ last
      → last ≤ 65535
      → x ≤ 65535
      → Covers (port_interval first last) x ↔ ((first ≤ x) × (x ≤ last))
  Covers-port_interval puts first last x h k m =
      let a = puts.spelled first (omega arith) in
      let b = puts.spelled ((last + 1) % 65536) (omega arith) in ground (arith, a, b)

  pub checked_elements-form :
      (first : ℕ) (ep : Option ℤ) (els : List SetElement)
      → checked_elements (pos first) ep ≡ ok els
      → (1 ≤ first)
        × (first ≤ last_port ep first)
        × (last_port ep first ≤ 65535)
        × (els ≡ port_interval first (last_port ep first))
  checked_elements-form first none els h = ground arith
  checked_elements-form first (some (negsuc e)) els h = ground arith
  checked_elements-form first (some (pos e)) els h = ground arith

  checked_elements-accepts :
      (first : ℕ) (ep : Option ℤ)
      → 1 ≤ first
      → first ≤ 65535
      → last_port ep first ≤ 65535
      → checked_elements (pos first) ep ≡ ok (port_interval first (last_port ep first))
  checked_elements-accepts first none h k m = ground arith
  checked_elements-accepts first (some (negsuc e)) h k m = ground arith
  checked_elements-accepts first (some (pos e)) h k m = ground arith

  validate_port_spec-numeric :
      (p : PolicyPort) (n : ℤ)
      → p.port ≡ some (int_val n)
      → validate_port_spec p ≡ checked_elements n p.end_port
  unfolding validate_port_spec
  validate_port_spec-numeric p n e = rw (e, validate_port_spec)

  -- A numeric port that is accepted lets through exactly the ports from itself to its end port, or
  -- itself alone where there is no greater end port, up to port 65535.
  pub validate_port_spec-Covers :
      (puts : PutsBigEndian lib) (p : PolicyPort) (first : ℕ) (els : List SetElement) (x : ℕ)
      → p.port ≡ some (int_val (pos first))
      → validate_port_spec p ≡ ok els
      → x ≤ 65535
      → Covers els x ↔ ((first ≤ x) × (x ≤ last_port p.end_port first))
  validate_port_spec-Covers puts p first els x e h m =
      let (low, order, high, form) =
        checked_elements-form first p.end_port els
          (sym (validate_port_spec-numeric p (pos first) e) ∙ h) in
      subst (λ l. Covers l x ↔ ((first ≤ x) × (x ≤ last_port p.end_port first))) (sym form)
        (Covers-port_interval puts first (last_port p.end_port first) x order high m)

  -- the port and the last port of a specification lie between 1 and 65535
  abbrev pub LiesInPorts : ℤ → Option ℤ → Type 0
  LiesInPorts (pos first) ep = (1 ≤ first) × (last_port ep first ≤ 65535)
  LiesInPorts (negsuc _) ep = ⊥

  -- A numeric port, of either sign, is accepted exactly if it and its last port lie between 1 and
  -- 65535; the last port is the end port where that is above the port, and else the port.
  pub validate_port_spec-accepts_iff :
      (p : PolicyPort) (n : ℤ)
      → p.port ≡ some (int_val n)
      → ((els : List SetElement) × (validate_port_spec p ≡ ok els)) ↔ LiesInPorts n p.end_port
  validate_port_spec-accepts_iff p (negsuc n) e = (
    λ (els, h).
        let q : checked_elements (negsuc n) p.end_port ≡ ok els =
          sym (validate_port_spec-numeric p (negsuc n) e) ∙ h in
        ground (arith, q),
    λ h. absurd h,
  )
  validate_port_spec-accepts_iff p (pos first) e = (
    λ (els, h).
        let (low, order, high, form) =
          checked_elements-form first p.end_port els
            (sym (validate_port_spec-numeric p (pos first) e) ∙ h) in
        (low, high),
    λ (low, high). (
      port_interval first (last_port p.end_port first),
      validate_port_spec-numeric p (pos first) e
          ∙ checked_elements-accepts first p.end_port low
              (le_trans (first-le-last_port p.end_port first) high) high,
    ),
  )

  -- a text counts as the number that it spells
  validate_port_spec-text :
      (p : PolicyPort) (s : Bytes) (n : ℕ)
      → p.port ≡ some (str_val s)
      → atoi s ≡ some (pos n)
      → 1 ≤ n
      → n ≤ 65535
      → validate_port_spec p ≡ validate_port_spec (record p { port = some (int_val (pos n)) })
  unfolding validate_port_spec
  validate_port_spec-text p s n e a low high =
      rw (e, validate_port_spec) (rw (a, numeric_port) (ground arith))

  -- A port number from 1 to 65535 that is written in decimal is read back: as text it is accepted
  -- exactly where the number is, with the same elements.
  pub validate_port_spec-decimal :
      (p : PolicyPort) (n : ℕ)
      → 1 ≤ n
      → n ≤ 65535
      → validate_port_spec (record p { port = some (str_val (decimal n)) })
        ≡ validate_port_spec (record p { port = some (int_val (pos n)) })
  validate_port_spec-decimal p n low high =
      validate_port_spec-text (record p { port = some (str_val (decimal n)) }) (decimal n) n refl
        (atoi-decimal n (omega arith)) low high
