-- ===== src/Keys.antt =====
-- The keys under which rules, chains and sets are kept: pkg/server/encoder.go.
-- `hash` there switches on the type of its argument; each type has a function of its own here.
use multi_networkpolicy_nfta.Nft.{Expr, counter, other, Rule, RuleData, Libraries}
use multi_networkpolicy_nfta.Names.{fnv32a}
use multi_networkpolicy_nfta.Base.{
  Bytes, hex, encode_failed, Result, ok, err, Option, none, some, List, [], ◌∷◌,
}

abbrev pub digest : Bytes → Bytes
digest encoded = hex (fnv32a encoded)

abbrev pub encoded : Option Bytes → Result Bytes
encoded none = err encode_failed
encoded (some b) = ok (digest b)

module _ ⦃lib : Libraries⦄ where
  -- hash of a string
  unfoldable pub hash_text : Bytes → Result Bytes
  hash_text s = encoded (lib.gob_text s)

  -- hash of an expression
  unfoldable pub hash_expr : Expr → Result Bytes
  hash_expr e = encoded (lib.gob_expr e)

  abbrev pub cons_hash : Result Bytes → Result (List Bytes) → Result (List Bytes)
  cons_hash (err e) rest = err e
  cons_hash (ok b) (err e) = err e
  cons_hash (ok b) (ok bs) = ok (b ∷ bs)

  -- The loop over `rule.Exprs`: counters, and expressions of other types, leave no trace.
  unfoldable pub hash_exprs : List Expr → Result (List Bytes)
  unfolding hash_expr
  hash_exprs [] = ok []
  hash_exprs (counter _ _ ∷ es) = hash_exprs es
  hash_exprs (other _ ∷ es) = hash_exprs es
  hash_exprs (e ∷ es) = cons_hash (hash_expr e) (hash_exprs es)

  abbrev pub rule_data_of : Rule → Result (List Bytes) → Result RuleData
  rule_data_of rule (err e) = err e
  rule_data_of rule (ok hashes) = ok (record {
    table = rule.table.name;
    chain = rule.chain.name;
    family = rule.table.family;
    user_data = rule.user_data;
    exprs = hashes;
  })

  unfoldable pub new_rule_data : Rule → Result RuleData
  unfolding hash_exprs
  new_rule_data rule = rule_data_of rule (hash_exprs rule.exprs)

  abbrev pub hash_data : Result RuleData → Result Bytes
  hash_data (err e) = err e
  hash_data (ok d) = encoded (lib.gob_rule d)

  -- hash of a rule
  unfoldable pub hash_rule : Rule → Result Bytes
  unfolding new_rule_data
  hash_rule rule = hash_data (new_rule_data rule)
