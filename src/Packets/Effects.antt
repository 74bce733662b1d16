-- ===== src/Packets/Effects.antt =====
-- What a list of writes does to a chain and to a packet on it.
use mathlib.Core.List.{append_assoc}
use multi_networkpolicy_nfta.Packets.{Vm, Step, word}
use multi_networkpolicy_nfta.Packets.Marks.{set_port_bit, remark-lt, set_port_bit-bits}
use multi_networkpolicy_nfta.Packets.Chain.{rules_after, Passes, Passes-append, rules_after-append}
use multi_networkpolicy_nfta.Nft.{Expr, Transcript}
use multi_networkpolicy_nfta.Fields.{port_rule_mark, complement32}
use multi_networkpolicy_nfta.Base.{
  Bytes, test_bit, ℕ, ◌<◌, ◌≡◌, refl, ap, ◌∙◌, ◌↔◌, ◌⊎◌, inl, inr, List, ◌++◌, arith,
}

-- What a rule's ports do to the mark: the port bit is set where they match, or was set before, and
-- the peer bit stays.
abbrev pub Marked : ℕ → ℕ → Type 0 → Type 0
Marked m m' hit =
    (m' < word)
    × ((test_bit m' 16 ≡ 1) ↔ ((test_bit m 16 ≡ 1) ⊎ hit))
    × (test_bit m' 17 ≡ test_bit m 17)

-- What commands do to the chain of a name and to a packet on it: rules are added that pass the
-- packet on, and mark it where `hit` holds.
abbrev pub Effect : (Expr → Vm → Step) → Bytes → Transcript → ℕ → Type 0 → Type 0
Effect step name cmds m hit =
    (rs : List (List Expr)) × ((rules : List (List Expr))
      → rules_after name rules cmds ≡ rules ++ rs)
    × ((m' : ℕ) × Passes step rs m m' × Marked m m' hit)

pub unmarked : (m : ℕ) (hit : Type 0) → m < word → (hit → ⊥) → Marked m m hit
unmarked m hit h miss = (h, (λ b. inl b, λ b. elim b [ inl k ↦ k | inr k ↦ absurd (miss k) ]), refl)

pub marked : (m : ℕ) (hit : Type 0) → m < word → hit → Marked m (set_port_bit m) hit
marked m hit h k =
    let (bit, peer) = set_port_bit-bits m in
    (
      remark-lt (complement32 port_rule_mark) port_rule_mark m h (omega arith),
      (λ b. inr k, λ b. bit),
      peer,
    )

pub Marked-trans :
    (m m1 m2 : ℕ) (hit hit' : Type 0)
    → Marked m m1 hit
    → Marked m1 m2 hit'
    → Marked m m2 (hit ⊎ hit')
Marked-trans m m1 m2 hit hit' (h, b, p) (h', b', p') = (
  h',
  (
    λ k. elim (b'.0 k) [
      | inl k1 ↦ elim (b.0 k1) [ inl k2 ↦ inl k2 | inr k2 ↦ inr (inl k2) ]
      | inr k1 ↦ inr (inr k1)
    ],
    λ k. b'.1 (elim k [
      | inl k1 ↦ inl (b.1 (inl k1))
      | inr k1 ↦ elim k1 [ inl k2 ↦ inl (b.1 (inr k2)) | inr k2 ↦ inr k2 ]
    ]),
  ),
  p' ∙ p,
)

pub Effect-append :
    (step : Expr → Vm → Step) (name : Bytes) (cs ds : Transcript) (m : ℕ) (hit hit' : Type 0)
    → Effect step name cs m hit
    → ((m1 : ℕ) → m1 < word → Effect step name ds m1 hit')
    → Effect step name (cs ++ ds) m (hit ⊎ hit')
Effect-append step name cs ds m hit hit' (rs, adds, (m1, passes, good)) later =
    let (qs, adds', (m2, passes', good')) = later m1 good.0 in
    (
      rs ++ qs,
      λ rules.
          rules_after-append name rules cs ds
          ∙ ap (λ l. rules_after name l ds) (adds rules)
          ∙ adds' (rules ++ rs)
          ∙ append_assoc rules rs qs,
      (
        m2,
        Passes-append step rs qs m m1 m2 passes passes',
        Marked-trans m m1 m2 hit hit' good good',
      ),
    )
