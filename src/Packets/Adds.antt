-- ===== src/Packets/Adds.antt =====
-- Which rules a list of writes puts behind those of a chain.
use mathlib.Core.List.{append_assoc, append-nil}
use multi_networkpolicy_nfta.Packets.Chain.{write_on, rules_after, rules_after-append}
use multi_networkpolicy_nfta.Nft.{Chain, Expr, Rule, new_chain, add_rule, Transcript}
use multi_networkpolicy_nfta.Packets.PortRules.{Untouched, rule_elsewhere}
use multi_networkpolicy_nfta.Base.{Bytes, eq_bytes_iff, ◌≡◌, sym, ap, ◌∙◌, ◌≢◌, List, [], ◌∷◌, ◌++◌}

abbrev pub Adds : Bytes → List (List Expr) → Transcript → Type 0
Adds name rs cmds = (rules : List (List Expr)) → rules_after name rules cmds ≡ rules ++ rs

pub Adds-append :
    (name : Bytes) (rs qs : List (List Expr)) (cs ds : Transcript)
    → Adds name rs cs
    → Adds name qs ds
    → Adds name (rs ++ qs) (cs ++ ds)
Adds-append name rs qs cs ds f g rules =
    rules_after-append name rules cs ds
    ∙ ap (λ l. rules_after name l ds) (f rules)
    ∙ g (rules ++ rs)
    ∙ append_assoc rules rs qs

pub Adds-here :
    (name : Bytes) (r : Rule) (es : List Expr)
    → r.chain.name ≡ name
    → r.exprs ≡ es
    → Adds name (es ∷ []) (add_rule r ∷ [])
Adds-here name r es e k rules =
    rw ((eq_bytes_iff r.chain.name name).1 e, rules_after, write_on) (ap (λ q. rules ++ (q ∷ [])) k)

pub Adds-nothing : (name : Bytes) (cmds : Transcript) → Untouched name cmds → Adds name [] cmds
Adds-nothing name cmds u rules = u rules ∙ sym (append-nil rules)

pub Adds-elsewhere :
    (name : Bytes) (r : Rule) (other_name : Bytes)
    → r.chain.name ≡ other_name
    → name ≢ other_name
    → Adds name [] (add_rule r ∷ [])
Adds-elsewhere name r other_name e differs =
    Adds-nothing name (add_rule r ∷ []) (rule_elsewhere name r other_name e differs)

pub Adds-new_chain : (name : Bytes) (chain : Chain) → Adds name [] (new_chain chain ∷ [])
Adds-new_chain name chain rules = sym (append-nil rules)
