-- ===== src/Events/Changes.antt =====
-- What the change tests of the predicates detect.
use multi_networkpolicy_nfta.Events.{label_at, is_value, some_label_changed, labels_changed}
use multi_networkpolicy_nfta.Cluster.{Labels}
use multi_networkpolicy_nfta.Base.{
  if◌then◌else◌, Bool-cases, Option-cases, length, All, Bytes, eq_bytes, eq_bytes_iff, suc, ◌≤◌,
  ◌≡◌, refl, sym, ap, ◌∙◌, ◌↔◌, inl, inr, true, false, Option, none, some, [], ◌∷◌, arith,
}

-- the keys of a Go map
abbrev pub DistinctKeys : Labels → Type 0
DistinctKeys [] = Unit
DistinctKeys ((k, v) ∷ rest) = (label_at k rest ≡ none) × DistinctKeys rest

-- every entry of a map stands in another one too
abbrev pub ContainedIn : Labels → Labels → Type 0
ContainedIn old_labels new_labels =
    All (λ (kv : Bytes × Bytes). label_at kv.0 new_labels ≡ some kv.1) old_labels

is_value_iff : (v : Bytes) (o : Option Bytes) → (is_value v o ≡ true) ↔ (o ≡ some v)
is_value_iff v none = ground arith
is_value_iff v (some w) = ground (arith, eq_bytes_iff w v)

some_label_changed_iff :
    (old_labels new_labels : Labels)
    → (some_label_changed old_labels new_labels ≡ false) ↔ ContainedIn old_labels new_labels
unfolding some_label_changed
some_label_changed_iff [] new_labels = ground arith
some_label_changed_iff ((k, v) ∷ rest) new_labels =
    ground (arith, is_value_iff v (label_at k new_labels), some_label_changed_iff rest new_labels)

-- a map without a key
without : Bytes → Labels → Labels
without key [] = []
without key ((k, v) ∷ rest) =
    let later = without key rest in if eq_bytes key k then later else (k, v) ∷ later

label_at-without_other :
    (key j : Bytes) (m : Labels)
    → eq_bytes j key ≡ false
    → label_at j (without key m) ≡ label_at j m
unfolding without
label_at-without_other key j [] h = refl
label_at-without_other key j ((k, v) ∷ rest) h = ground (
  arith,
  eq_bytes_iff key k,
  eq_bytes_iff j k,
  eq_bytes_iff j key,
  label_at-without_other key j rest h,
)

without-absent : (key : Bytes) (m : Labels) → label_at key m ≡ none → without key m ≡ m
unfolding without
without-absent key [] h = refl
without-absent key ((k, v) ∷ rest) h = ground (arith, without-absent key rest)

length-without :
    (key : Bytes) (m : Labels) (v : Bytes)
    → DistinctKeys m
    → label_at key m ≡ some v
    → length m ≡ suc (length (without key m))
unfolding without
length-without key [] v d h = cc
length-without key ((k, w) ∷ rest) v d h = elim (Bool-cases (eq_bytes key k)) [
  | inl e ↦ rw e (
      ap (λ (m : Labels). suc (length m))
        (sym (without-absent key rest (rw ((eq_bytes_iff key k).0 e) d.0))))
  | inr e ↦ rw e (ap suc (length-without key rest v d.1 (rw e at h)))
]

without-DistinctKeys : (key : Bytes) (m : Labels) → DistinctKeys m → DistinctKeys (without key m)
unfolding without
without-DistinctKeys key [] d = tt
without-DistinctKeys key ((k, v) ∷ rest) d = elim (Bool-cases (eq_bytes key k)) [
  | inl e ↦ rw e (without-DistinctKeys key rest d.1)
  | inr e ↦ rw e (
    label_at-without_other key k rest (ground (arith, eq_bytes_iff key k, eq_bytes_iff k key))
        ∙ d.0,
    without-DistinctKeys key rest d.1,
  )
]

-- every value that one map has, another one has too
abbrev Sub : Labels → Labels → Type 0
Sub m n = (j w : Bytes) → label_at j m ≡ some w → label_at j n ≡ some w

Sub-tail :
    (k v : Bytes) (rest n : Labels) → label_at k rest ≡ none → Sub ((k, v) ∷ rest) n → Sub rest n
Sub-tail k v rest n d sub j w h = sub j w (ground (arith, eq_bytes_iff j k))

Sub-without :
    (k v : Bytes) (rest n : Labels)
    → label_at k rest ≡ none
    → Sub ((k, v) ∷ rest) n
    → Sub rest (without k n)
Sub-without k v rest n d sub j w h =
    label_at-without_other k j n (ground (arith, eq_bytes_iff j k))
    ∙ Sub-tail k v rest n d sub j w h

ContainedIn-Sub : (m n : Labels) → ContainedIn m n → Sub m n
ContainedIn-Sub [] n h j w e = cc
ContainedIn-Sub ((k, v) ∷ rest) n h j w e =
    ground (arith, eq_bytes_iff j k, h.0, ContainedIn-Sub rest n h.1 j w)

Sub-ContainedIn : (m n : Labels) → DistinctKeys m → Sub m n → ContainedIn m n
Sub-ContainedIn [] n d sub = tt
Sub-ContainedIn ((k, v) ∷ rest) n d sub = (
  sub k v (ground (arith, eq_bytes_iff k k)),
  Sub-ContainedIn rest n d.1 (Sub-tail k v rest n d.0 sub),
)

head_found : (k v : Bytes) (rest n : Labels) → Sub ((k, v) ∷ rest) n → label_at k n ≡ some v
head_found k v rest n sub = sub k v (ground (arith, eq_bytes_iff k k))

length-Sub : (m n : Labels) → DistinctKeys m → DistinctKeys n → Sub m n → length m ≤ length n
length-Sub [] n d d' sub = omega arith
length-Sub ((k, v) ∷ rest) n d d' sub = omega (
  arith,
  length-without k n v d' (head_found k v rest n sub),
  length-Sub rest (without k n) d.1 (without-DistinctKeys k n d') (Sub-without k v rest n d.0 sub),
)

Sub-back :
    (m n : Labels) → DistinctKeys m → DistinctKeys n → length m ≡ length n → Sub m n → Sub n m
Sub-back [] [] d d' e sub j w h = h
Sub-back [] (_ ∷ _) d d' e sub j w h = absurd (omega arith)
Sub-back ((k, v) ∷ rest) n d d' e sub j w h =
    let found = head_found k v rest n sub in
    let later =
      Sub-back rest (without k n) d.1 (without-DistinctKeys k n d')
        (omega (arith, length-without k n v d' found)) (Sub-without k v rest n d.0 sub) j w in
    elim (Bool-cases (eq_bytes j k)) [
      | inl s ↦ let same = (eq_bytes_iff j k).0 s in rw s (sym found ∙ rw (← same) h)
      | inr s ↦ rw s (later (label_at-without_other k j n s ∙ h))
    ]

Sub-same : (m n : Labels) → Sub m n → Sub n m → (j : Bytes) → label_at j m ≡ label_at j n
Sub-same m n sub back j = elim (Option-cases (label_at j m)) [
  | inr (w, e) ↦ e ∙ sym (sub j w e)
  | inl e ↦ elim (Option-cases (label_at j n)) [
    | inl e' ↦ e ∙ sym e'
    | inr (w, e') ↦ absurd (cc (back j w e', e))
  ]
]

-- The labels of a pod count as unchanged exactly if every key has the same value, or none, in the old
-- map and in the new one, where each map has a key once.
pub labels_changed_iff :
    (old_labels new_labels : Labels)
    → DistinctKeys old_labels
    → DistinctKeys new_labels
    → (labels_changed old_labels new_labels ≡ false)
      ↔ ((key : Bytes) → label_at key old_labels ≡ label_at key new_labels)
unfolding labels_changed
labels_changed_iff old new d d' = (
  λ h.
      let (e, c) = unchanged old new h in
      let sub = ContainedIn-Sub old new ((some_label_changed_iff old new).0 c) in
      Sub-same old new sub (Sub-back old new d d' e sub),
  λ same.
      let sub : Sub old new = λ j w h. sym (same j) ∙ h in
      let back : Sub new old = λ j w h. same j ∙ h in
      let shorter = length-Sub old new d d' sub in
      let longer = length-Sub new old d' d back in
      let inside = (some_label_changed_iff old new).1 (Sub-ContainedIn old new d sub) in
      ground arith,
)
  where
    unchanged :
        (m n : Labels)
        → labels_changed m n ≡ false
        → (length m ≡ length n) × (some_label_changed m n ≡ false)
    unchanged m n h = ground arith
