-- ===== src/Render/DefaultDeny.antt =====
-- The end of the entry chain of a direction.
use multi_networkpolicy_nfta.Nft.{
  Chain, drop, verdict, counter, Rule, add_rule, Transcript, Libraries, NftState,
}
use multi_networkpolicy_nfta.Rules.{rule_equal}
use multi_networkpolicy_nfta.Rules.Sent.{zeroed}
use multi_networkpolicy_nfta.Fields.{new_rule}
use multi_networkpolicy_nfta.Base.{Any, codes, ok, ◌≡◌, ◌⊎◌, Bool, true, false, List, [], ◌∷◌, ◌++◌}

module _ ⦃lib : Libraries⦄ where
  -- drop what is left
  abbrev pub drop_rule : Chain → Rule
  drop_rule chain =
      new_rule chain.table chain (codes "drop-remaining") (counter 0 0 ∷ verdict drop [] ∷ [])

  -- on the chain, a rule that counts and then drops, with any counter
  abbrev pub Drops : Chain → Rule → Type 0
  Drops chain r = (r.chain ≡ chain) × (zeroed r.exprs ≡ counter 0 0 ∷ verdict drop [] ∷ [])

  -- The last command appends such a rule; or nothing was sent since a state in which the kernel showed
  -- a rule that equals the drop rule, and no policy had brought a new jump.
  abbrev pub EndsInDrop : Chain → Bool → NftState → NftState → Type 0
  EndsInDrop chain force s1 s' =
      ((r : Rule) × (before : Transcript) × Drops chain r × (s'.sent ≡ before ++ (add_rule r ∷ [])))
      ⊎ ((rules : List Rule) × (old : Rule) × (force ≡ false)
          × (lib.get_rules s1.sent chain.table chain ≡ ok rules)
          × Any (λ r. r ≡ old) rules
          × (rule_equal (drop_rule chain) old ≡ true)
          × (s'.sent ≡ s1.sent))
