-- ===== src/Cleanup/Chains.antt =====
-- Which chains cleanupChains deletes.
use mathlib.Core.List.{append_assoc, append-nil}
use mathlib.Core.Path.{subst}
use multi_networkpolicy_nfta.Nft.{
  inet, Chain, Command, del_chain, flush, Transcript, Libraries, NftState, has_key, on_conn,
  attempt,
}
use multi_networkpolicy_nfta.Cleanup.{sweep_empty_chains, cleanup_chains}
use multi_networkpolicy_nfta.Chains.{chain_id}
use multi_networkpolicy_nfta.Base.{
  Bool-cases, is_empty, All, All-append, mem_bytes, ok, Result-cases, when, ◌≡◌, refl, ap, ◌∙◌, ◌⊎◌,
  inl, inr, Bool, true, false, List, [], ◌∷◌, ◌++◌,
}

empty_cases : {A : Type 0} (xs : List A) → (xs ≡ []) ⊎ (is_empty xs ≡ false)
empty_cases [] = inl refl
empty_cases (x ∷ xs) = inr refl

module _ ⦃lib : Libraries⦄ where
  -- A chain of the two tables that the render has not kept, and in which no rule was read.
  abbrev pub IsUnused : NftState → Chain → Type 0
  IsUnused s c =
      (has_key (chain_id c) s.chains ≡ false)
      × (mem_bytes c.table.name (s.filter.name ∷ s.nat.name ∷ []) ≡ true)
      × (t : Transcript) × (lib.get_rules t c.table c ≡ ok [])

  abbrev pub Spares : NftState → Command → Type 0
  Spares s (del_chain c) = IsUnused s c
  Spares s flush = Unit
  Spares s _ = ⊥

  -- What an action has sent spares the chains in use, and it has changed nothing else.
  abbrev pub SentSparing : NftState → NftState → Type 0
  SentSparing s s' =
      (added : Transcript) × (s' ≡ record s { sent = s.sent ++ added }) × All (Spares s) added

  sent_nothing : (s : NftState) → SentSparing s s
  sent_nothing s = ([], rw append-nil, tt)

  sent_more : (s s1 s2 : NftState) → SentSparing s s1 → SentSparing s1 s2 → SentSparing s s2
  sent_more s s1 s2 (a, e, h) (b, f, k) = (
    a ++ b,
    f ∙ rw e (rw (append_assoc s.sent a b) refl),
    All-append (Spares s) a b h (subst (λ (q : NftState). All (Spares q) b) e k),
  )

  sweep_empty_chains-sparing :
      (cs : List Chain) (perform_flush : Bool) (s : NftState)
      → SentSparing s (sweep_empty_chains cs perform_flush s).1
  unfolding sweep_empty_chains
  sweep_empty_chains-sparing [] perform_flush s = sent_nothing s
  sweep_empty_chains-sparing (c ∷ cs) perform_flush s =
      elim (Bool-cases (mem_bytes c.table.name (s.filter.name ∷ s.nat.name ∷ []))) [
        | inr foreign_ ↦ rw foreign_ (sweep_empty_chains-sparing cs perform_flush s)
        | inl own ↦ rw own (elim (Result-cases (lib.get_rules s.sent c.table c)) [
          | inr (e, fails) ↦ rw fails (sent_nothing s)
          | inl (rules, reads) ↦ rw reads (elim (Bool-cases (has_key (chain_id c) s.chains)) [
            | inl used ↦ rw used (sweep_empty_chains-sparing cs perform_flush s)
            | inr unused ↦ rw unused (elim (empty_cases rules) [
              | inr some_ ↦ rw some_ (sweep_empty_chains-sparing cs perform_flush s)
              | inl none_ ↦ rw none_ (
                  let s1 = record s { sent = s.sent ++ (del_chain c ∷ []) } in
                  let free : IsUnused s c = (unused, own, s.sent, reads ∙ ap ok none_) in
                  sent_more s s1 (sweep_empty_chains cs true s1).1
                    (del_chain c ∷ [], refl, (free, tt)) (sweep_empty_chains-sparing cs true s1))
            ])
          ])
        ])
      ]

  flush_sparing : (b : Bool) (s : NftState) → SentSparing s (when b (on_conn (attempt flush)) s).1
  flush_sparing true s = (flush ∷ [], refl, (tt, tt))
  flush_sparing false s = sent_nothing s

  -- However it ends, cleanupChains sends deletions of chains only and a flush, each deleted chain lies
  -- in the filter or the nat table, is none that the render has kept, and had no rule in it when it
  -- was looked at. It forgets nothing of the render.
  pub cleanup_chains-sparing : (s : NftState) → SentSparing s (cleanup_chains s).1
  unfolding cleanup_chains
  cleanup_chains-sparing s = elim (Result-cases (lib.list_chains_of_table_family s.sent inet)) [
    | inr (e, fails) ↦ rw fails (sent_nothing s)
    | inl (chains, lists) ↦ rw lists (elim (Result-cases (sweep_empty_chains chains false s).0) [
      | inr (e, fails) ↦ rw fails (sweep_empty_chains-sparing chains false s)
      | inl (b, fine) ↦ rw fine (
          sent_more s (sweep_empty_chains chains false s).1
            (when b (on_conn (attempt flush)) (sweep_empty_chains chains false s).1).1
            (sweep_empty_chains-sparing chains false s)
            (flush_sparing b (sweep_empty_chains chains false s).1))
    ])
  ]
