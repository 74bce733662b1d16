-- ===== src/Recorder/Compare.antt =====
-- What an empty difference means.
use mathlib.Core.Path.{subst}
use multi_networkpolicy_nfta.Recorder.{Message, Netlink, diff_from, diff}
use multi_networkpolicy_nfta.Base.{
  ltb, if◌then◌else◌, Bool-cases, length, drop_first, Bytes, eq_bytes, eq_bytes_iff, Result, ok,
  err, Result-cases, ℕ, suc, ◌≡◌, refl, sym, ap, ◌↔◌, inl, inr, true, false, List, [], ◌∷◌, ◌++◌,
  arith,
}

module _ ⦃n : Netlink⦄ where
  -- The payloads behind the headers of the messages that have one.
  abbrev pub payloads : List Message → Result (List Bytes)
  payloads [] = ok []
  payloads (msg ∷ msgs) = elim (n.marshal_message msg) [
    | err e ↦ err e
    | ok b ↦ elim (payloads msgs) [
      | err e ↦ err e
      | ok ps ↦ ok (if ltb (length b) 16 then ps else drop_first 16 b ∷ ps)
    ]
  ]

  -- The payloads are those that are wanted, or the first of them.
  abbrev pub Begins : List Message → List Bytes → Type 0
  Begins got want =
      (ps : List Bytes) × (rest : List Bytes) × (payloads got ≡ ok ps) × (want ≡ ps ++ rest)

  short-Begins :
      (msg : Message) (b : Bytes) (got : List Message) (want : List Bytes)
      → n.marshal_message msg ≡ ok b
      → ltb (length b) 16 ≡ true
      → Begins got want
      → Begins (msg ∷ got) want
  short-Begins msg b got want q s (ps, rest, k, w) = (ps, rest, rw (q, k, s, payloads) refl, w)

  long-Begins :
      (msg : Message) (b : Bytes) (got : List Message) (want : List Bytes)
      → n.marshal_message msg ≡ ok b
      → ltb (length b) 16 ≡ false
      → Begins got want
      → Begins (msg ∷ got) (drop_first 16 b ∷ want)
  long-Begins msg b got want q s (ps, rest, k, w) =
      (drop_first 16 b ∷ ps, rest, rw (q, k, s, payloads) refl, ap (λ l. drop_first 16 b ∷ l) w)

  diff_from-Begins :
      (idx : ℕ) (got : List Message) (want : List Bytes)
      → diff_from idx got want ≡ []
      → Begins got want
  unfolding diff_from
  diff_from-Begins idx [] want h = ([], want, refl, refl)
  diff_from-Begins idx (msg ∷ got) [] h = elim (Result-cases (n.marshal_message msg)) [
    | inr (e, q) ↦ absurd (ground (arith, q))
    | inl (b, q) ↦ elim (Bool-cases (ltb (length b) 16)) [
      | inl s ↦
          short-Begins msg b got [] q s (diff_from-Begins (suc idx) got [] (ground (arith, q, s)))
      | inr s ↦ absurd (ground (arith, q, s))
    ]
  ]
  diff_from-Begins idx (msg ∷ got) (w ∷ want) h = elim (Result-cases (n.marshal_message msg)) [
    | inr (e, q) ↦ absurd (ground (arith, q))
    | inl (b, q) ↦ elim (Bool-cases (ltb (length b) 16)) [
      | inl s ↦
          short-Begins msg b got (w ∷ want) q s
            (diff_from-Begins (suc idx) got (w ∷ want) (ground (arith, q, s)))
      | inr s ↦ elim (Bool-cases (eq_bytes (drop_first 16 b) w)) [
        | inr d ↦ absurd (ground (arith, q, s, d))
        | inl d ↦
            subst (λ x. Begins (msg ∷ got) (x ∷ want)) ((eq_bytes_iff (drop_first 16 b) w).0 d)
              (long-Begins msg b got want q s
                (diff_from-Begins (suc idx) got want (ground (arith, q, s, d))))
      ]
    ]
  ]

  payloads-cases :
      (msg : Message) (got : List Message) (ps : List Bytes)
      → payloads (msg ∷ got) ≡ ok ps
      → (b : Bytes) × (tail : List Bytes) × (n.marshal_message msg ≡ ok b)
        × (payloads got ≡ ok tail)
        × (ps ≡ (if ltb (length b) 16 then tail else drop_first 16 b ∷ tail))
  payloads-cases msg got ps h = elim (Result-cases (n.marshal_message msg)) [
    | inr (e, q) ↦ absurd (ground (arith, q))
    | inl (b, q) ↦ elim (Result-cases (payloads got)) [
      | inr (e, k) ↦ absurd (ground (arith, q, k))
      | inl (tail, k) ↦ (b, tail, q, k, ground (arith, q, k))
    ]
  ]

  short_one :
      (idx : ℕ) (msg : Message) (b : Bytes) (got : List Message) (want : List Bytes)
      → n.marshal_message msg ≡ ok b
      → ltb (length b) 16 ≡ true
      → diff_from (suc idx) got want ≡ []
      → diff_from idx (msg ∷ got) want ≡ []
  unfolding diff_from
  short_one idx msg b got [] q s h = ground (arith, q, s, h)
  short_one idx msg b got (w ∷ want) q s h = ground (arith, q, s, h)

  long_one :
      (idx : ℕ) (msg : Message) (b : Bytes) (got : List Message) (want : List Bytes)
      → n.marshal_message msg ≡ ok b
      → ltb (length b) 16 ≡ false
      → diff_from (suc idx) got want ≡ []
      → diff_from idx (msg ∷ got) (drop_first 16 b ∷ want) ≡ []
  unfolding diff_from
  long_one idx msg b got want q s h =
      ground (arith, q, s, h, (eq_bytes_iff (drop_first 16 b) (drop_first 16 b)).1 refl)

  diff_from-payloads :
      (idx : ℕ) (got : List Message) (ps rest : List Bytes)
      → payloads got ≡ ok ps
      → diff_from idx got (ps ++ rest) ≡ []
  unfolding diff_from
  diff_from-payloads idx [] ps rest h = refl
  diff_from-payloads idx (msg ∷ got) ps rest h =
      let (b, tail, q, k, shape) = payloads-cases msg got ps h in
      elim (Bool-cases (ltb (length b) 16)) [
        | inl s ↦
            let e : ps ≡ tail = ground (arith, shape, s) in
            subst (λ l. diff_from idx (msg ∷ got) (l ++ rest) ≡ []) (sym e)
              (short_one idx msg b got (tail ++ rest) q s
                (diff_from-payloads (suc idx) got tail rest k))
        | inr s ↦
            let e : ps ≡ drop_first 16 b ∷ tail = ground (arith, shape, s) in
            subst (λ l. diff_from idx (msg ∷ got) (l ++ rest) ≡ []) (sym e)
              (long_one idx msg b got (tail ++ rest) q s
                (diff_from-payloads (suc idx) got tail rest k))
      ]

  -- The difference of records and wanted payloads is empty iff every message can be marshalled and
  -- the payloads, of those messages that are as long as a header, are the first ones of those that
  -- are wanted: it says nothing of payloads that are wanted beyond the end of the record.
  pub diff_iff : (got : List Message) (want : List Bytes) → (diff got want ≡ []) ↔ Begins got want
  unfolding diff
  diff_iff got want = (
    diff_from-Begins 0 got want,
    λ (ps, rest, k, w).
        subst (λ l. diff_from 0 got l ≡ []) (sym w) (diff_from-payloads 0 got ps rest k),
  )
