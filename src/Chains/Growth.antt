-- ===== src/Chains/Growth.antt =====
-- The keys of kept rules across addChain.
use multi_networkpolicy_nfta.Nft.{Chain, new_chain, Libraries, on_conn, send, gets, keep_chain}
use multi_networkpolicy_nfta.Chains.{
  chain_id, short_chain_name, create_chain, place_chain, add_chain,
}
use multi_networkpolicy_nfta.Rules.Growth.{
  Grows, Grows-on_conn, Grows-gets, Grows-lift, Grows-pure, Grows-raise, Grows-bind,
  Grows-keep_chain,
}
use multi_networkpolicy_nfta.Base.{Err, is_not_exist, is_exist, lift, Keeps-if, Option, none, some}

module _ ⦃lib : Libraries⦄ where
  create_chain-Grows : (chain : Chain) → Grows (create_chain chain)
  unfolding create_chain
  create_chain-Grows chain =
      Grows-bind (on_conn (send (new_chain chain))) _ (Grows-on_conn (send (new_chain chain)))
        (λ _. Grows-pure chain)

  place_chain-Grows :
      (chain : Chain) (found : Option Chain) (e : Option Err) → Grows (place_chain chain (found, e))
  unfolding place_chain
  place_chain-Grows chain none e = create_chain-Grows chain
  place_chain-Grows chain (some c) none = Grows-pure c
  place_chain-Grows chain (some c) (some e) = λ key.
      Keeps-if (is_not_exist e) _ _ (λ _. create_chain-Grows chain key)
        (λ _. Keeps-if (is_exist e) _ _ (λ _. Grows-pure c key) (λ _. Grows-raise e key))

  pub add_chain-Grows : (wanted : Chain) → Grows (add_chain wanted)
  unfolding add_chain
  add_chain-Grows wanted =
      Grows-bind (lift (short_chain_name wanted)) _ (Grows-lift (short_chain_name wanted)) (λ chain.
        Grows-bind (gets (λ s. lib.list_chain s.sent chain.table chain.name)) _
          (Grows-gets (λ s. lib.list_chain s.sent chain.table chain.name))
          (λ answer.
            Grows-bind (place_chain chain answer) _ (place_chain-Grows chain answer.0 answer.1)
              (λ c.
                Grows-bind (keep_chain (chain_id c) c) _ (Grows-keep_chain (chain_id c) c)
                  (λ _. Grows-pure c))))
