-- ===== src/Fields/Interfaces.antt =====
-- Names of interfaces as keys.
use mathlib.Core.List.{append_assoc}
use multi_networkpolicy_nfta.Fields.{ifname}
use multi_networkpolicy_nfta.Base.{
  ◌==◌, if◌then◌else◌, length, take, replicate, All, length-append, Bytes, ℕ, zero, suc, ◌-◌, ◌≤◌,
  ◌≡◌, refl, sym, ap, ◌∙◌, ◌≢◌, [], ◌∷◌, ◌++◌, arith,
}

abbrev pub NonZero : Bytes → Type 0
NonZero s = All (λ c. c ≢ 0) s

take-all : (n : ℕ) (xs : Bytes) → length xs ≤ n → take n xs ≡ xs
take-all zero [] h = refl
take-all zero (x ∷ xs) h = absurd (omega arith)
take-all (suc n) [] h = refl
take-all (suc n) (x ∷ xs) h = ap (λ ys. x ∷ ys) (take-all n xs (omega arith))

-- what stands before the first zero byte
abbrev until_zero : Bytes → Bytes
until_zero [] = []
until_zero (c ∷ s) = let rest = until_zero s in if c == 0 then [] else c ∷ rest

until_zero-append : (n rest : Bytes) → NonZero n → until_zero (n ++ (0 ∷ rest)) ≡ n
until_zero-append [] rest h = refl
until_zero-append (c ∷ n) rest h = ground (arith, h.0, until_zero-append n rest h.1)

until_zero-ifname : (n : Bytes) → length n ≤ 15 → NonZero n → until_zero (ifname n) ≡ n
unfolding ifname
until_zero-ifname n short clean =
    let fits : length (n ++ (0 ∷ [])) ≤ 16 = omega (arith, length-append {0} n (0 ∷ [])) in
    let pad : Bytes = replicate (16 - length (n ++ (0 ∷ []))) 0 in
    rw (take-all 16 (n ++ (0 ∷ [])) fits)
      (rw (append_assoc n (0 ∷ []) pad) (until_zero-append n pad clean))

-- Two interfaces whose names have at most 15 bytes, none of them zero, as Linux has it, have different
-- keys unless they have one name.
pub ifname_inj :
    (a b : Bytes)
    → length a ≤ 15
    → NonZero a
    → length b ≤ 15
    → NonZero b
    → ifname a ≡ ifname b
    → a ≡ b
ifname_inj a b ha ca hb cb e =
    sym (until_zero-ifname a ha ca) ∙ ap until_zero e ∙ until_zero-ifname b hb cb
