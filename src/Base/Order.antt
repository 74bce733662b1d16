-- ===== src/Base/Order.antt =====
-- Orders of texts, and sorts by keys.
use mathlib.Core.Path.{◌≡◌, refl, ap, sym, ◌∙◌}
use mathlib.Core.Logic.{inl, inr, ◌≢◌}
use mathlib.Core.Bool.{Bool, true, false}
use mathlib.Core.List.{List, [], ◌∷◌}
use native.Mathlib.Omega.{arith}
use multi_networkpolicy_nfta.Base.Tests.{Bool-cases}
use multi_networkpolicy_nfta.Base.Text.{Bytes, le_bytes}
use multi_networkpolicy_nfta.Base.Sort.{insert_sorted, sort_by}

le_bytes_total : (s t : Bytes) → le_bytes s t ≡ false → le_bytes t s ≡ true
le_bytes_total [] t h = ground arith
le_bytes_total (c ∷ s) [] h = ground arith
le_bytes_total (c ∷ s) (d ∷ t) h = ground (arith, le_bytes_total s t)

le_bytes_antisym : (s t : Bytes) → le_bytes s t ≡ true → le_bytes t s ≡ true → s ≡ t
le_bytes_antisym [] [] h k = refl
le_bytes_antisym [] (d ∷ t) h k = ground arith
le_bytes_antisym (c ∷ s) [] h k = ground arith
le_bytes_antisym (c ∷ s) (d ∷ t) h k = ground (arith, le_bytes_antisym s t)

le_bytes_trans : (s t u : Bytes) → le_bytes s t ≡ true → le_bytes t u ≡ true → le_bytes s u ≡ true
le_bytes_trans [] t u h k = ground arith
le_bytes_trans (c ∷ s) [] u h k = ground arith
le_bytes_trans (c ∷ s) (d ∷ t) [] h k = ground arith
le_bytes_trans (c ∷ s) (d ∷ t) (e ∷ u) h k = ground (arith, le_bytes_trans s t u)

-- One list is the other in another order, where elements that change places are not equal under
-- the key.
pub data Reordered {A : Type 0} (key : A → Bytes) : List A → List A → Type 0 where
  unchanged : {xs : List A} → Reordered key xs xs
  exchanged : {xs : List A} (x y : A) → key x ≢ key y → Reordered key (x ∷ y ∷ xs) (y ∷ x ∷ xs)
  behind : {xs ys : List A} (x : A) → Reordered key xs ys → Reordered key (x ∷ xs) (x ∷ ys)
  followed : {xs ys zs : List A} → Reordered key xs ys → Reordered key ys zs → Reordered key xs zs

module _ {A : Type 0} (key : A → Bytes) where
  -- the order of the keys
  abbrev pub by_key : A → A → Bool
  by_key x y = le_bytes (key x) (key y)

  insert_before :
      (x y : A) (xs : List A)
      → by_key x y ≡ true
      → by_key y x ≡ false
      → insert_sorted by_key x (insert_sorted by_key y xs)
        ≡ insert_sorted by_key y (insert_sorted by_key x xs)
  insert_before x y [] h k = ground arith
  insert_before x y (a ∷ xs) h k =
      ground (arith, insert_before x y xs h k, le_bytes_trans (key x) (key y) (key a))

  insert_commute :
      (x y : A) (xs : List A)
      → key x ≢ key y
      → insert_sorted by_key x (insert_sorted by_key y xs)
        ≡ insert_sorted by_key y (insert_sorted by_key x xs)
  insert_commute x y xs differ = elim (Bool-cases (by_key x y)) [
    | inl h ↦ elim (Bool-cases (by_key y x)) [
      | inl k ↦ absurd (differ (le_bytes_antisym (key x) (key y) h k))
      | inr k ↦ insert_before x y xs h k
    ]
    | inr h ↦ sym (insert_before y x xs (le_bytes_total (key x) (key y) h) h)
  ]

  -- A sort by keys gives one list for every order of elements with different keys.
  pub sort_by-Reordered :
      (xs ys : List A) → Reordered key xs ys → sort_by by_key xs ≡ sort_by by_key ys
  unfolding sort_by
  sort_by-Reordered _ _ unchanged = refl
  sort_by-Reordered _ _ (exchanged {xs} x y differ) = insert_commute x y (sort_by by_key xs) differ
  sort_by-Reordered _ _ (behind {xs} {ys} x r) =
      ap (λ zs. insert_sorted by_key x zs) (sort_by-Reordered xs ys r)
  sort_by-Reordered _ _ (followed {xs} {ys} {zs} r s) =
      sort_by-Reordered xs ys r ∙ sort_by-Reordered ys zs s
