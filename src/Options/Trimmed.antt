-- ===== src/Options/Trimmed.antt =====
-- What strings.TrimSpace leaves of a text.
-- texts of a list, one behind the other
use mathlib.Core.List.{append_assoc, reverse, reverse-append, reverse-reverse}
use mathlib.Core.Path.{ap₂}
use multi_networkpolicy_nfta.Options.{spaces, leading, trim_from, trim_space}
use multi_networkpolicy_nfta.Base.{
  ◌==◌, Bool-cases, length, drop_first, is_empty, any, Any, Bytes, has_prefix, ℕ, zero, suc, ◌-◌,
  ◌≤◌, ◌≡◌, refl, sym, ap, ◌∙◌, ◌⊎◌, inl, inr, true, false, List, [], ◌∷◌, ◌++◌, map, arith,
}

pub data Made (ps : List Bytes) : Bytes → Type 0 where
  made_nil : Made ps []
  made_cons : (p s : Bytes) → Any (λ q. q ≡ p) ps → Made ps s → Made ps (p ++ s)

has_prefix-split : (s p : Bytes) → has_prefix s p ≡ true → s ≡ p ++ drop_first (length p) s
has_prefix-split s [] h = refl
has_prefix-split [] (c ∷ p) h = absurd (ground (arith, h))
has_prefix-split (d ∷ s) (c ∷ p) h =
    let rest = has_prefix-split s p (ground (arith, h)) in
    let same : d ≡ c = ground (arith, h) in ap₂ (λ a l. a ∷ l) same rest

-- no text of a list stands in front, or the first that does is counted
leading-cases :
    (ps : List Bytes) (s : Bytes)
    → (leading ps s ≡ 0)
      ⊎ ((p : Bytes) × Any (λ q. q ≡ p) ps
          × (leading ps s ≡ length p)
          × (s ≡ p ++ drop_first (length p) s))
unfolding leading
leading-cases [] s = inl refl
leading-cases (p ∷ ps) s = elim (Bool-cases (has_prefix s p)) [
  | inl there ↦ rw there (inr (p, inl refl, refl, has_prefix-split s p there))
  | inr not_there ↦ rw not_there (elim (leading-cases ps s) [
    | inl e ↦ inl e
    | inr k ↦ let (q, among, e, split) = k in inr (q, inr among, e, split)
  ])
]

leading-none :
    (ps : List Bytes) (s : Bytes)
    → any is_empty ps ≡ false
    → leading ps s ≡ 0
    → any (has_prefix s) ps ≡ false
unfolding leading
leading-none [] s filled h = refl
leading-none ([] ∷ ps) s filled h = absurd (ground (arith, filled))
leading-none ((c ∷ p) ∷ ps) s filled h = elim (Bool-cases (has_prefix s (c ∷ p))) [
  | inl there ↦ absurd (ground (arith, there, h))
  | inr not_there ↦ ground (arith, not_there, leading-none ps s filled (rw not_there at h))
]

trim_from-skip :
    (ps : List Bytes) (k : ℕ) (s : Bytes) → trim_from ps k s ≡ trim_from ps 0 (drop_first k s)
unfolding trim_from
trim_from-skip ps zero s = refl
trim_from-skip ps (suc k) [] = refl
trim_from-skip ps (suc k) (c ∷ s) = trim_from-skip ps k s

length-drop_first-le : (k : ℕ) (s : Bytes) → length (drop_first k s) ≤ length s
length-drop_first-le zero s = omega arith
length-drop_first-le (suc k) [] = omega arith
length-drop_first-le (suc k) (c ∷ s) = omega (arith, length-drop_first-le k s)

-- the front that was taken off, and that none is left
record Taken (ps : List Bytes) (s : Bytes) : Type 0 where
  front : Bytes
  made : Made ps front
  split : s ≡ front ++ trim_from ps 0 s
  none_left : leading ps (trim_from ps 0 s) ≡ 0

nothing_leads : (ps : List Bytes) → leading ps [] ≡ 0
unfolding leading
nothing_leads [] = refl
nothing_leads ([] ∷ ps) = refl
nothing_leads ((c ∷ p) ∷ ps) = nothing_leads ps

trim_from-stays :
    (ps : List Bytes) (c : ℕ) (s : Bytes) → leading ps (c ∷ s) ≡ 0 → trim_from ps 0 (c ∷ s) ≡ c ∷ s
unfolding trim_from
trim_from-stays ps c s e = rw (e, trim_from) refl

trim_from-goes :
    (ps : List Bytes) (c m : ℕ) (s : Bytes)
    → leading ps (c ∷ s) ≡ suc m
    → trim_from ps 0 (c ∷ s) ≡ trim_from ps 0 (drop_first m s)
unfolding trim_from
trim_from-goes ps c m s e =
    let less : suc m - 1 ≡ m = omega arith in
    let some_there : (suc m == 0) ≡ false = ground arith in
    rw (e, trim_from) (rw (some_there, less) (trim_from-skip ps m s))

stays-Taken : (ps : List Bytes) (c : ℕ) (s : Bytes) → leading ps (c ∷ s) ≡ 0 → Taken ps (c ∷ s)
stays-Taken ps c s e =
    let q = trim_from-stays ps c s e in
    record { front = []; made = made_nil; split = sym q; none_left = ap (leading ps) q ∙ e }

goes-Taken :
    (ps : List Bytes) (c m : ℕ) (s p : Bytes)
    → Any (λ q. q ≡ p) ps
    → leading ps (c ∷ s) ≡ suc m
    → c ∷ s ≡ p ++ drop_first m s
    → Taken ps (drop_first m s)
    → Taken ps (c ∷ s)
goes-Taken ps c m s p among e split w =
    let q = trim_from-goes ps c m s e in
    record {
      front = p ++ w.front;
      made = made_cons p w.front among w.made;
      split =
          split
          ∙ ap (λ l. p ++ l) w.split
          ∙ sym (append_assoc p w.front (trim_from ps 0 (drop_first m s)))
          ∙ ap (λ l. (p ++ w.front) ++ l) (sym q);
      none_left = ap (leading ps) q ∙ w.none_left;
    }

step-Taken :
    (ps : List Bytes) (c : ℕ) (s p : Bytes)
    → Any (λ q. q ≡ p) ps
    → (n : ℕ) → leading ps (c ∷ s) ≡ n
    → c ∷ s ≡ p ++ drop_first n (c ∷ s)
    → ((m : ℕ) → Taken ps (drop_first m s))
    → Taken ps (c ∷ s)
step-Taken ps c s p among zero e split later = stays-Taken ps c s e
step-Taken ps c s p among (suc m) e split later = goes-Taken ps c m s p among e split (later m)

trim_from-Taken : (ps : List Bytes) (fuel : ℕ) (s : Bytes) → length s ≤ fuel → Taken ps s
unfolding trim_from
trim_from-Taken ps fuel [] h = record {
  front = [];
  made = made_nil;
  split = refl;
  none_left = nothing_leads ps;
}
trim_from-Taken ps zero (c ∷ s) h = absurd (omega (arith, h))
trim_from-Taken ps (suc fuel) (c ∷ s) h = elim (leading-cases ps (c ∷ s)) [
  | inl e ↦ stays-Taken ps c s e
  | inr k ↦
      let (p, among, e, split) = k in
      step-Taken ps c s p among (length p) e split
        (λ m. trim_from-Taken ps fuel (drop_first m s) (omega (arith, h, length-drop_first-le m s)))
]

has_prefix-append : (s t p : Bytes) → has_prefix s p ≡ true → has_prefix (s ++ t) p ≡ true
has_prefix-append s t [] h = refl
has_prefix-append [] t (c ∷ p) h = ground arith
has_prefix-append (d ∷ s) t (c ∷ p) h = ground (arith, has_prefix-append s t p)

begins-append :
    (s t : Bytes) (ps : List Bytes)
    → any (has_prefix (s ++ t)) ps ≡ false
    → any (has_prefix s) ps ≡ false
begins-append s t [] h = refl
begins-append s t (p ∷ ps) h = elim (Bool-cases (has_prefix s p)) [
  | inl there ↦ absurd (ground (arith, has_prefix-append s t p there, h))
  | inr not_there ↦ ground (arith, not_there, begins-append s t ps (ground (arith, h)))
]

-- A text is what TrimSpace leaves of it between white space in front and behind, and that neither
-- begins nor ends with white space. What stands behind is read from its end.
pub record Trimmed (s t : Bytes) : Type 0 where
  pub front : Bytes
  pub back : Bytes
  pub split : s ≡ front ++ (t ++ reverse back)
  pub front_made : Made spaces front
  pub back_made : Made (map reverse spaces) back
  pub begins : any (has_prefix t) spaces ≡ false
  pub ends : any (has_prefix (reverse t)) (map reverse spaces) ≡ false

pub trim_space-Trimmed : (s : Bytes) → Trimmed s (trim_space s)
unfolding trim_space
trim_space-Trimmed s =
    let w = trim_from-Taken spaces (length s) s (omega arith) in
    let t = trim_from spaces 0 s in
    let r = reverse t in
    let backwards = map reverse spaces in
    let v = trim_from-Taken backwards (length r) r (omega arith) in
    let u = trim_from backwards 0 r in
    let e = reverse u in
    let t_split : t ≡ e ++ reverse v.front =
      sym (reverse-reverse t) ∙ ap reverse v.split ∙ reverse-append v.front u in
    record {
      front = w.front;
      back = v.front;
      split = w.split ∙ ap (λ l. w.front ++ l) t_split;
      front_made = w.made;
      back_made = v.made;
      begins = begins-append e (reverse v.front) spaces (
          ap (λ l. any (has_prefix l) spaces) (sym t_split)
          ∙ leading-none spaces t refl w.none_left);
      ends =
          ap (λ l. any (has_prefix l) backwards) (reverse-reverse u)
          ∙ leading-none backwards u refl v.none_left;
    }
