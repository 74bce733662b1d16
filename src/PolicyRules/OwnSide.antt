-- ===== src/PolicyRules/OwnSide.antt =====
-- Which rules of a policy applyPodRules of pkg/server/netfilterrules.go reads.
use multi_networkpolicy_nfta.PolicyRules.{
  or_empty, policy_chain_name_of, apply_rule, apply_interfaces, apply_pod_rules,
}
use multi_networkpolicy_nfta.PolicyRules.ChainName.{is_ingress_chain-policy_chain_name_of}
use multi_networkpolicy_nfta.Chains.{
  ingress_chain_name, egress_chain_name, is_ingress_chain, add_chain,
}
use multi_networkpolicy_nfta.Cluster.{
  PolicyRule, Policy, InterfaceInfo, PodInfo, PolicyDeps, on_policy_network,
}
use multi_networkpolicy_nfta.Marks.{apply_pod_interface_rules}
use multi_networkpolicy_nfta.Nft.{Chain, Libraries, NftState, Render}
use multi_networkpolicy_nfta.Fields.{policy_namespaced_name}
use multi_networkpolicy_nfta.Base.{
  if◌then◌else◌, Bool-cases, Bytes, Result-cases, continue, ◌>>=◌, ◌>>◌, pure, for_index, ◌≡◌, refl,
  ap, ◌∙◌, ◌⊎◌, inl, inr, Bool, true, false, ◌||◌, Option, none, List, [], ◌∷◌,
}

-- the policy with other rules for the direction that is not that of the entry chain
abbrev pub with_other_side :
    {name : Bytes}
    → (name ≡ ingress_chain_name) ⊎ (name ≡ egress_chain_name)
    → Policy
    → Option (List PolicyRule)
    → Policy
with_other_side (inl _) policy rules = record policy { egress = rules }
with_other_side (inr _) policy rules = record policy { ingress = rules }

bind_after :
    {A B : Type 0} (m : Render A) (f g : A → Render B) (s : NftState)
    → ((a : A) (s' : NftState) → f a s' ≡ g a s')
    → (m >>= f) s ≡ (m >>= g) s
bind_after m f g s same = elim (Result-cases (m s).0) [
  | inl (a, e) ↦ rw (e, continue) (same a (m s).1)
  | inr (x, e) ↦ rw (e, continue) refl
]

bind_before :
    {A B : Type 0} (m m' : Render A) (f : A → Render B) (s : NftState)
    → m s ≡ m' s
    → (m >>= f) s ≡ (m' >>= f) s
bind_before m m' f s e = ap (λ r. continue r.0 f r.1) e

-- whether the entry chain is the ingress one
abbrev side : {name : Bytes} → (name ≡ ingress_chain_name) ⊎ (name ≡ egress_chain_name) → Bool
side (inl _) = true
side (inr _) = false

-- the chain of a policy has the direction of its entry chain
own_direction :
    (name : Bytes) (policy : Policy)
    (entry : (name ≡ ingress_chain_name) ⊎ (name ≡ egress_chain_name))
    → is_ingress_chain (policy_chain_name_of name policy) ≡ side entry
own_direction name policy (inl e) =
    ap (λ n. is_ingress_chain (policy_chain_name_of n policy)) e
    ∙ (is_ingress_chain-policy_chain_name_of policy).0
own_direction name policy (inr e) =
    ap (λ n. is_ingress_chain (policy_chain_name_of n policy)) e
    ∙ (is_ingress_chain-policy_chain_name_of policy).1

module _ ⦃lib : Libraries⦄ (deps : PolicyDeps) where
  -- the loop over the interfaces does not read the rules of the policy
  interfaces_same :
      (chain policy_chain : Chain) (policy : Policy) (ing eg : Option (List PolicyRule))
      (networks : List Bytes) (intfs : List InterfaceInfo) (b : Bool) (s : NftState)
      → apply_interfaces deps chain policy_chain
          (record policy { ingress = ing; egress = eg })
          networks
          intfs
          b
          s
        ≡ apply_interfaces deps chain policy_chain policy networks intfs b s
  unfolding apply_interfaces apply_pod_interface_rules
  interfaces_same chain policy_chain policy ing eg networks [] b s = refl
  interfaces_same chain policy_chain policy ing eg networks (intf ∷ rest) b s =
      elim (Bool-cases (on_policy_network intf networks)) [
        | inr off ↦ rw off (interfaces_same chain policy_chain policy ing eg networks rest b s)
        | inl on ↦ rw on (
            bind_after (apply_pod_interface_rules chain policy_chain policy intf)
              (λ n.
                apply_interfaces deps chain policy_chain
                  (record policy { ingress = ing; egress = eg }) networks rest (n || b))
              (λ n. apply_interfaces deps chain policy_chain policy networks rest (n || b)) s
              (λ n s'. interfaces_same chain policy_chain policy ing eg networks rest (n || b) s'))
      ]

  -- the code behind the names, with the two loops over rules
  abbrev pod_code :
      Bytes
      → (Chain → Render Bool)
      → Bool
      → (Chain → Render (Unit {0}))
      → (Chain → Render (Unit {0}))
      → Render Bool
  pod_code name intfs is_ingress ing eg s =
      (add_chain (record { name = name; table = s.filter; base = none }) >>= λ pc.
      intfs pc >>= λ n. (if is_ingress then ing pc else eg pc) >> pure n)
        s

  pod_code-chosen :
      (name : Bytes) (intfs intfs' : Chain → Render Bool) (is_ingress : Bool)
      (ing eg ing' eg' : Chain → Render (Unit {0})) (s : NftState)
      → ((pc : Chain) (s' : NftState) → intfs pc s' ≡ intfs' pc s')
      → ((pc : Chain)
          → (if is_ingress then ing pc else eg pc) ≡ (if is_ingress then ing' pc else eg' pc))
      → pod_code name intfs is_ingress ing eg s ≡ pod_code name intfs' is_ingress ing' eg' s
  pod_code-chosen name intfs intfs' is_ingress ing eg ing' eg' s same chosen =
      let first = add_chain (record { name = name; table = s.filter; base = none }) in
      bind_after first (λ pc. intfs pc >>= λ n. (if is_ingress then ing pc else eg pc) >> pure n)
        (λ pc. intfs' pc >>= λ n. (if is_ingress then ing' pc else eg' pc) >> pure n) s
        (λ pc s'.
          bind_before (intfs pc) (intfs' pc) (λ n. (if is_ingress then ing pc else eg pc) >> pure n)
            s' (same pc s')
          ∙ ap (λ (k : Render (Unit {0})). (intfs' pc >>= λ n. k >> pure n) s') (chosen pc))

  -- the loops over the two lists of rules of a policy
  abbrev rule_loop :
      Bytes
      → Policy
      → PodInfo
      → List Bytes
      → Bytes
      → Option (List PolicyRule)
      → Chain
      → Render (Unit {0})
  rule_loop name policy pod_info networks reset_name rules pc =
      for_index 0 (or_empty rules)
        (apply_rule deps name pc reset_name (policy_namespaced_name policy) pod_info networks)

  -- the loop over the interfaces, with other rules in the policy
  abbrev interface_loop :
      Chain
      → Policy
      → PodInfo
      → List Bytes
      → Option (List PolicyRule)
      → Option (List PolicyRule)
      → Chain
      → Render Bool
  interface_loop chain policy pod_info networks ing eg pc =
      apply_interfaces deps chain pc (record policy { ingress = ing; egress = eg }) networks
        pod_info.interfaces false

  -- Under the ingress chain applyPodRules reads the ingress rules of the policy alone, and under the
  -- egress chain the egress rules alone, whatever the policy is called: with any other rules for the
  -- other direction it does the same from every state, to the commands and the error.
  pub apply_pod_rules-own_side :
      (chain : Chain) (pod_info : PodInfo) (policy : Policy) (networks : List Bytes)
      (rules : Option (List PolicyRule)) (s : NftState)
      (entry : (chain.name ≡ ingress_chain_name) ⊎ (chain.name ≡ egress_chain_name))
      → apply_pod_rules deps chain pod_info (with_other_side entry policy rules) networks s
        ≡ apply_pod_rules deps chain pod_info policy networks s
  unfolding apply_pod_rules
  apply_pod_rules-own_side chain pod_info policy networks rules s (inl e) =
      let name = policy_chain_name_of chain.name policy in
      let loop = rule_loop name policy pod_info networks in
      let label = policy_namespaced_name policy in
      let intfs = interface_loop chain policy pod_info networks in
      pod_code-chosen name (intfs policy.ingress rules) (intfs policy.ingress policy.egress)
        (is_ingress_chain name) (loop label policy.ingress) (loop policy.name rules)
        (loop label policy.ingress) (loop policy.name policy.egress) s
        (λ pc s'.
          interfaces_same chain pc policy policy.ingress rules networks pod_info.interfaces false
            s')
        (λ pc. rw (own_direction chain.name policy (inl e)) refl)
  apply_pod_rules-own_side chain pod_info policy networks rules s (inr e) =
      let name = policy_chain_name_of chain.name policy in
      let loop = rule_loop name policy pod_info networks in
      let label = policy_namespaced_name policy in
      let intfs = interface_loop chain policy pod_info networks in
      pod_code-chosen name (intfs rules policy.egress) (intfs policy.ingress policy.egress)
        (is_ingress_chain name) (loop label rules) (loop policy.name policy.egress)
        (loop label policy.ingress) (loop policy.name policy.egress) s
        (λ pc s'.
          interfaces_same chain pc policy rules policy.egress networks pod_info.interfaces false s')
        (λ pc. rw (own_direction chain.name policy (inr e)) refl)
