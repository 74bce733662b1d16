-- ===== src/Rules/Update.antt =====
-- What a successful updateRule leaves behind.
use multi_networkpolicy_nfta.Nft.{
  Table, Chain, Expr, meta, lookup, counter, other, Rule, Command, del_rule, Transcript, Libraries,
  NftState,
}
use multi_networkpolicy_nfta.Keys.{hash_exprs, rule_data_of, hash_data, hash_rule}
use multi_networkpolicy_nfta.Rules.{
  rule_equal, last_equal, replace_counter, copy_counter, find_rule, place_rule, store_rule,
  update_rule,
}
use multi_networkpolicy_nfta.Rules.Equal.{hash_rule-rule_equal}
use multi_networkpolicy_nfta.Base.{
  Bool-cases, Option-cases, All, Bytes, Err, Result, ok, err, ◌>>=◌, >>=-eq-ok, ℕ, ◌≡◌, refl, sym,
  ap, ◌∙◌, ◌⊎◌, inl, inr, Bool, true, false, Option, none, some, List, [], ◌∷◌, arith,
}

-- `Conn.GetRules` returns rules of the table and the chain that it is asked for.
pub record ReadsAsked (lib : Libraries) : Type 0 where
  pub asked :
      (t : Transcript) (table : Table) (chain : Chain) (rules : List Rule)
      → lib.get_rules t table chain ≡ ok rules
      → All (λ r. r.table ≡ table) rules

last_equal-family :
    (rule : Rule) (rs : List Rule) (ex : Option Rule) (e : Rule)
    → All (λ r. r.table ≡ rule.table) rs
    → (ex ≡ none)
      ⊎ ((d : Rule) × (ex ≡ some d) × (rule_equal rule d ≡ true) × (d.table ≡ rule.table))
    → last_equal rule rs ex ≡ some e
    → (rule_equal rule e ≡ true) × (e.table ≡ rule.table)
unfolding last_equal
last_equal-family rule [] ex e own (inl n) h = cc
last_equal-family rule [] ex e own (inr (d, p, q, f)) h =
    let same : d ≡ e = ground arith in (rw (← same) q, rw (← same) f)
last_equal-family rule (r ∷ rs) ex e own prev h = elim (Bool-cases (rule_equal rule r)) [
  | inl y ↦ last_equal-family rule rs (some r) e own.1 (inr (r, refl, y, own.0)) (rw y at h)
  | inr n ↦ last_equal-family rule rs ex e own.1 prev (rw n at h)
]

module _ ⦃lib : Libraries⦄ where
  hash_exprs-replace_counter :
      (a b : ℕ) (es : List Expr) → hash_exprs (replace_counter (counter a b) es) ≡ hash_exprs es
  unfolding hash_exprs replace_counter
  hash_exprs-replace_counter a b [] = refl
  hash_exprs-replace_counter a b (counter _ _ ∷ es) = refl
  hash_exprs-replace_counter a b (other _ ∷ es) = hash_exprs-replace_counter a b es
  hash_exprs-replace_counter a b (meta _ _ _ ∷ es) = rw (hash_exprs-replace_counter a b es)
  hash_exprs-replace_counter a b (lookup _ _ _ ∷ es) = rw (hash_exprs-replace_counter a b es)
  hash_exprs-replace_counter a b (_ ∷ es) = rw (hash_exprs-replace_counter a b es)

  hash_exprs-copy_counter : (ex es : List Expr) → hash_exprs (copy_counter ex es) ≡ hash_exprs es
  unfolding copy_counter
  hash_exprs-copy_counter [] es = refl
  hash_exprs-copy_counter (counter a b ∷ ex) es = hash_exprs-replace_counter a b es
  hash_exprs-copy_counter (_ ∷ ex) es = hash_exprs-copy_counter ex es

  -- The rule that is kept has the key of the rule that was asked for, and nothing else was kept.
  record Placed (rule : Rule) (s : NftState) (kept : Rule) (s' : NftState) : Type 0 where
    key : hash_rule kept ≡ hash_rule rule
    rules : s'.rules ≡ s.rules

  place_rule-Placed :
      (rule : Rule) (action : Rule → Command) (force : Bool) (ex : Option Rule) (s : NftState)
      (kept : Rule) (is_new : Bool)
      → ((e : Rule) → ex ≡ some e → (rule_equal rule e ≡ true) × (e.table ≡ rule.table))
      → (place_rule rule action force ex s).0 ≡ ok (kept, is_new)
      → Placed rule s kept (place_rule rule action force ex s).1
  unfolding place_rule hash_rule
  place_rule-Placed rule action force none s kept is_new own h =
      let same : kept ≡ rule = ground arith in record { key = ap hash_rule same; rules = refl }
  place_rule-Placed rule action false (some e) s kept is_new own h =
      let (equal, table) = own e refl in
      let same : kept ≡ e = ground arith in
      let family : rule.table.family ≡ e.table.family = ap (λ (t : Table). t.family) (sym table) in
      record {
        key = ap hash_rule same ∙ sym (hash_rule-rule_equal rule e equal family);
        rules = refl;
      }
  place_rule-Placed rule action true (some e) s kept is_new own h =
      elim (Option-cases (lib.outcome s.sent (del_rule e))) [
        | inl n ↦ record { key = ap hash_rule (kept_updated n) ∙ same_key; rules = rw n }
        | inr (x, p) ↦ absurd (failed x p)
      ]
    where
      updated : Rule
      updated = record rule { exprs = copy_counter e.exprs rule.exprs }

      same_key : hash_rule updated ≡ hash_rule rule
      same_key =
          ap (λ hs. hash_data (rule_data_of rule hs)) (hash_exprs-copy_counter e.exprs rule.exprs)

      kept_updated : lib.outcome s.sent (del_rule e) ≡ none → kept ≡ updated
      kept_updated n = ground arith

      failed : (x : Err) → lib.outcome s.sent (del_rule e) ≡ some x → ⊥
      failed x p = ground arith

  find_rule-state : (rule : Rule) (s : NftState) → (find_rule rule s).1 ≡ s
  unfolding find_rule
  find_rule-state rule s = ground arith

  find_rule-own :
      (reads : ReadsAsked lib) (rule : Rule) (s : NftState) (ex : Option Rule)
      → (find_rule rule s).0 ≡ ok ex
      → (e : Rule) → ex ≡ some e
      → (rule_equal rule e ≡ true) × (e.table ≡ rule.table)
  unfolding find_rule
  find_rule-own reads rule s ex h e p = go (lib.get_rules s.sent rule.table rule.chain) refl
    where
      go :
          (r : Result (List Rule))
          → lib.get_rules s.sent rule.table rule.chain ≡ r
          → (rule_equal rule e ≡ true) × (e.table ≡ rule.table)
      go (ok rs) q =
          last_equal-family rule rs none e (reads.asked s.sent rule.table rule.chain rs q)
            (inl refl) (ground arith)
      go (err x) q = absurd (ground arith)

  store_rule-ok :
      (kept : Rule) (flag is_new : Bool) (s s' : NftState)
      → store_rule (kept, flag) s ≡ (ok is_new, s')
      → (key : Bytes) × (hash_rule kept ≡ ok key) × (s'.rules ≡ (key, kept) ∷ s.rules)
  unfolding store_rule
  store_rule-ok kept flag is_new s s' h = go (hash_rule kept) refl
    where
      go :
          (r : Result Bytes)
          → hash_rule kept ≡ r
          → (key : Bytes) × (hash_rule kept ≡ ok key) × (s'.rules ≡ (key, kept) ∷ s.rules)
      go (ok key) q = (key, q, ground arith)
      go (err x) q = absurd (ground arith)

  -- A successful updateRule, forced or not, keeps one more rule, under the key that the rule it was
  -- asked for has.
  pub rules-update_rule :
      (reads : ReadsAsked lib) (rule : Rule) (action : Rule → Command) (force : Bool)
      (s s' : NftState) (is_new : Bool)
      → update_rule rule action force s ≡ (ok is_new, s')
      → (key : Bytes) × (kept : Rule) × (hash_rule rule ≡ ok key)
        × (hash_rule kept ≡ ok key)
        × (s'.rules ≡ (key, kept) ∷ s.rules)
  unfolding update_rule
  rules-update_rule reads rule action force s s' is_new h =
      let (ex, e1, h1) =
        >>=-eq-ok (find_rule rule) (λ ex. place_rule rule action force ex >>= store_rule) s h in
      let (placed, e2, h2) =
        >>=-eq-ok (place_rule rule action force ex) store_rule (find_rule rule s).1 h1 in
      let (kept, flag) = placed in
      let s1 = (find_rule rule s).1 in
      let p =
        place_rule-Placed rule action force ex s1 kept flag (find_rule-own reads rule s ex e1) e2 in
      let (key, e3, h3) =
        store_rule-ok kept flag is_new (place_rule rule action force ex s1).1 s' h2 in
      (
        key,
        kept,
        sym p.key ∙ e3,
        e3,
        h3
            ∙ ap (λ rs. (key, kept) ∷ rs)
                (p.rules ∙ ap (λ (x : NftState). x.rules) (find_rule-state rule s)),
      )
