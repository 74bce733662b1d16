-- ===== src/PolicyRules/ChainName.antt =====
-- The names of the chains of the policies.
use multi_networkpolicy_nfta.PolicyRules.{policy_chain_name_of}
use multi_networkpolicy_nfta.Chains.{ingress_chain_name, egress_chain_name, is_ingress_chain}
use multi_networkpolicy_nfta.Cluster.{Policy}
use multi_networkpolicy_nfta.Base.{◌≡◌, refl, true, false}

-- the chain of a policy has the direction of its entry chain, whatever the policy is called
pub is_ingress_chain-policy_chain_name_of :
    (policy : Policy)
    → (is_ingress_chain (policy_chain_name_of ingress_chain_name policy) ≡ true)
      × (is_ingress_chain (policy_chain_name_of egress_chain_name policy) ≡ false)
unfolding policy_chain_name_of
is_ingress_chain-policy_chain_name_of policy = (refl, refl)
