-- ===== src/Chains/Kept.antt =====
-- What addChain leaves behind.
use multi_networkpolicy_nfta.Nft.{Chain, new_chain, Libraries, NftState, keep_chain}
use multi_networkpolicy_nfta.Chains.{
  chain_id, short_chain_name, create_chain, place_chain, add_chain,
}
use multi_networkpolicy_nfta.Base.{
  Err, Result, ok, ◌>>◌, pure, lift, >>=-eq-ok, ◌≡◌, refl, sym, ap, ◌∙◌, ◌⊎◌, inl, inr, Option,
  none, some, [], ◌∷◌, ◌++◌, arith,
}

module _ ⦃lib : Libraries⦄ where
  -- the chain that is placed is the one that was found, or the one that is added
  place_chain-sent :
      (chain c : Chain) (found : Option Chain) (e : Option Err) (s : NftState)
      → (place_chain chain (found, e) s).0 ≡ ok c
      → ((place_chain chain (found, e) s).1 ≡ s)
        ⊎ ((place_chain chain (found, e) s).1 ≡ record s { sent = s.sent ++ (new_chain c ∷ []) })
  unfolding place_chain create_chain
  place_chain-sent chain c none e s h = inr (ground arith)
  place_chain-sent chain c (some found) none s h = inl refl
  place_chain-sent chain c (some found) (some e) s h = ground arith

  -- A successful addChain keeps the chain that it returns, under its identifier, and sends at most one
  -- command, which adds that chain.
  pub add_chain-kept :
      (wanted c : Chain) (s s' : NftState)
      → add_chain wanted s ≡ (ok c, s')
      → (s'.chains ≡ (chain_id c, c) ∷ s.chains)
        × ((s'.sent ≡ s.sent) ⊎ (s'.sent ≡ s.sent ++ (new_chain c ∷ [])))
  unfolding add_chain
  add_chain-kept wanted c s s' h =
      let (chain, e, h1) = >>=-eq-ok (lift (short_chain_name wanted)) _ s h in
      let answer = lib.list_chain s.sent chain.table chain.name in
      let (found, e2, h2) =
        >>=-eq-ok (place_chain chain answer) (λ c. keep_chain (chain_id c) c >> pure c) s h1 in
      let p = place_chain-sent chain found answer.0 answer.1 s e2 in
      let same : found ≡ c = cc (ap (λ (q : Result Chain × NftState). q.0) h2) in
      let left = ap (λ (q : Result Chain × NftState). q.1) h2 in
      let sent = ap (λ (x : NftState). x.sent) left in
      let chains = ap (λ (x : NftState). x.chains) left in
      let kept = ap (λ (x : Chain). (chain_id x, x) ∷ s.chains) same in
      elim p [
        | inl q ↦ (
          sym chains ∙ ap (λ (x : NftState). (chain_id found, found) ∷ x.chains) q ∙ kept,
          inl (sym sent ∙ ap (λ (x : NftState). x.sent) q),
        )
        | inr q ↦ (
          sym chains ∙ ap (λ (x : NftState). (chain_id found, found) ∷ x.chains) q ∙ kept,
          inr (
              sym sent
              ∙ ap (λ (x : NftState). x.sent) q
              ∙ ap (λ (x : Chain). s.sent ++ (new_chain x ∷ [])) same),
        )
      ]
