-- ===== src/Rules/Sent.antt =====
-- What a successful updateRule has sent, on each of its branches.
use multi_networkpolicy_nfta.Rules.{rule_equal}
use multi_networkpolicy_nfta.Nft.{Expr, counter, Rule, Command, del_rule, Transcript}
use multi_networkpolicy_nfta.Base.{
  any, Any, ℕ, ◌≡◌, ◌⊎◌, Bool, true, false, Option, none, some, List, [], ◌∷◌, ◌++◌,
}

abbrev pub first_counter : List Expr → Option (ℕ × ℕ)
first_counter [] = none
first_counter (counter p b ∷ es) = some (p, b)
first_counter (_ ∷ es) = first_counter es

-- expressions with every counter at its start
abbrev pub zeroed : List Expr → List Expr
zeroed [] = []
zeroed (counter p b ∷ es) = counter 0 0 ∷ zeroed es
zeroed (e ∷ es) = e ∷ zeroed es

-- the counter of the old rule, where both rules have one
abbrev pub carried : Option (ℕ × ℕ) → Option (ℕ × ℕ) → Option (ℕ × ℕ)
carried none old = none
carried (some c) none = some c
carried (some c) (some d) = some d

-- the rule that takes the place of an old one
pub record Renewed (rule old renewed : Rule) : Type 0 where
  pub same_but_exprs : record renewed { exprs = rule.exprs } ≡ rule
  pub same_exprs : zeroed renewed.exprs ≡ zeroed rule.exprs
  pub counted_on :
      first_counter renewed.exprs ≡ carried (first_counter rule.exprs) (first_counter old.exprs)

-- the three cases: the rule is new, is left as it is, or is put in place of the old one
abbrev pub Updated :
    Rule → (Rule → Command) → Bool → List Rule → Transcript → Bool → Transcript → Type 0
Updated rule action force rules sent is_new sent' =
    ((any (rule_equal rule) rules ≡ false) × (is_new ≡ true) × (sent' ≡ sent ++ (action rule ∷ [])))
    ⊎ ((old : Rule) × Any (λ r. r ≡ old) rules
        × (rule_equal rule old ≡ true)
        × (is_new ≡ false)
        × (((force ≡ false) × (sent' ≡ sent))
            ⊎ ((force ≡ true)
                × (renewed : Rule) × Renewed rule old renewed
                × (sent' ≡ sent ++ (del_rule old ∷ action renewed ∷ [])))))
