-- ===== src/Chains/Samples.antt =====
-- A chain that the kernel does not have.
use multi_networkpolicy_nfta.Nft.{Chain, new_chain, NftState}
use multi_networkpolicy_nfta.Nft.Fake.{fresh, plain, start}
use multi_networkpolicy_nfta.Chains.{chain_id, add_chain}
use multi_networkpolicy_nfta.Chains.Kept.{add_chain-kept}
use multi_networkpolicy_nfta.Base.{codes, Result, ◌≡◌, refl, ◌⊎◌, [], ◌∷◌}

abbrev added : Result Chain × NftState
added = add_chain ⦃lib = fresh⦄ (plain (codes "multi-ingress-common")) start

add_chain-kept_example :
    (added.1.chains
      ≡ (chain_id (plain (codes "multi-ingress-common")), plain (codes "multi-ingress-common"))
        ∷ [])
    × ((added.1.sent ≡ []) ⊎ (added.1.sent ≡ new_chain (plain (codes "multi-ingress-common")) ∷ []))
unfolding add_chain
add_chain-kept_example =
    add_chain-kept ⦃lib = fresh⦄ (plain (codes "multi-ingress-common"))
      (plain (codes "multi-ingress-common")) start added.1 refl
