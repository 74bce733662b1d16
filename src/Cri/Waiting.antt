-- ===== src/Cri/Waiting.antt =====
-- That the wait for a connection ends, and what it has then done.
use mathlib.Core.Path.{subst}
use multi_networkpolicy_nfta.Cri.{Grpc, is_ready, wait_ready, after_wait, get_cri_runtime_client}
use multi_networkpolicy_nfta.Base.{
  if◌then◌else◌, Bool-cases, Bytes, codes, not_ready, ok, err, ℕ, zero, suc, ◌+◌, ◌≡◌, refl, ◌∙◌,
  ◌⊎◌, inl, inr, Bool, true, false, some, [], ◌∷◌, ◌++◌, arith,
}

module _ ⦃g : Grpc⦄ where
  -- in this round the loop ends
  abbrev pub EndsAt : ℕ → ℕ → Type 0
  EndsAt conn round =
      (is_ready (g.get_state conn round) ≡ true) ⊎ (g.state_changes conn round ≡ false)

  -- the loop has seen the connection ready, or was refused a wait
  abbrev pub Seen : ℕ → Bool → Type 0
  Seen conn b =
      (round : ℕ) × (is_ready (g.get_state conn round) ≡ b)
      × ((b ≡ true) ⊎ (g.state_changes conn round ≡ false))

  round_cases :
      (k round conn : ℕ)
      → ((b : Bool) × (wait_ready (suc k) round conn ≡ some b) × Seen conn b)
        ⊎ ((is_ready (g.get_state conn round) ≡ false)
            × (g.state_changes conn round ≡ true)
            × (wait_ready (suc k) round conn ≡ wait_ready k (suc round) conn))
  unfolding wait_ready
  round_cases k round conn = elim (Bool-cases (is_ready (g.get_state conn round))) [
    | inl r ↦ inl (true, ground (arith, r), (round, r, inl refl))
    | inr n ↦ elim (Bool-cases (g.state_changes conn round)) [
      | inr c ↦ inl (false, ground (arith, n, c), (round, n, inr c))
      | inl c ↦ inr (n, c, ground (arith, n, c))
    ]
  ]

  wait_ready-ends :
      (k round conn : ℕ)
      → EndsAt conn (round + k)
      → (b : Bool) × (wait_ready (suc k) round conn ≡ some b) × Seen conn b
  wait_ready-ends zero round conn h = elim (round_cases zero round conn) [
    | inl ended ↦ ended
    | inr more ↦
        let here : EndsAt conn round = subst (λ n. EndsAt conn n) (omega arith) h in
        absurd (ground (arith, more, here))
  ]
  wait_ready-ends (suc k) round conn h = elim (round_cases (suc k) round conn) [
    | inl ended ↦ ended
    | inr more ↦
        let (b, q, seen) =
          wait_ready-ends k (suc round) conn (subst (λ n. EndsAt conn n) (omega arith) h) in
        (b, more.2 ∙ q, seen)
  ]

  -- The loop that waits for the container runtime ends: if in some round the connection is ready or
  -- a wait is refused, as one is when the context has ended, then more rounds than that give a
  -- result. A client that is handed out is of a connection that was seen ready, and nothing was
  -- closed; a connection that was made and did not become ready is closed again, and the result is
  -- an error.
  pub get_cri_runtime_client-ends :
      (n conn : ℕ) (runtime_endpoint host_prefix addr : Bytes)
      → g.get_address (codes "unix://" ++ (host_prefix ++ runtime_endpoint)) ≡ ok addr
      → g.new_client (codes "passthrough:///" ++ addr) ≡ ok conn
      → EndsAt conn n
      → (b : Bool) × Seen conn b
        × (get_cri_runtime_client (suc n) runtime_endpoint host_prefix
            ≡ some (if b then (ok conn, []) else (err not_ready, conn ∷ [])))
  unfolding get_cri_runtime_client after_wait
  get_cri_runtime_client-ends n conn runtime_endpoint host_prefix addr a c h =
      let (b, q, seen) = wait_ready-ends n 0 conn (subst (λ m. EndsAt conn m) (omega arith) h) in
      (
        b,
        seen,
        elim (Bool-cases b) [
          | inl t ↦ rw (a, c, q, t, get_cri_runtime_client, after_wait) refl
          | inr t ↦ rw (a, c, q, t, get_cri_runtime_client, after_wait) refl
        ],
      )
