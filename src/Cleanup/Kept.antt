-- ===== src/Cleanup/Kept.antt =====
-- Which rules cleanupRules deletes.
use mathlib.Core.List.{append_assoc, append-nil}
use multi_networkpolicy_nfta.Nft.{
  Rule, Command, del_rule, Libraries, NftState, has_key, on_conn, attempt,
}
use multi_networkpolicy_nfta.Keys.{hash_rule}
use multi_networkpolicy_nfta.Rules.{rule_equal, update_rule}
use multi_networkpolicy_nfta.Rules.Equal.{hash_rule-rule_equal}
use multi_networkpolicy_nfta.Rules.Update.{ReadsAsked, rules-update_rule}
use multi_networkpolicy_nfta.Cleanup.{Sweep, is_stale, note_answer, sweep_rules}
use multi_networkpolicy_nfta.Base.{
  if◌then◌else◌, Bool-cases, Bytes, eq_bytes_iff, Err, ok, err, ◌≡◌, refl, sym, ◌∙◌, inl, inr, Bool,
  true, false, not, List, [], ◌∷◌, ◌++◌, arith,
}

module _ ⦃lib : Libraries⦄ where
  abbrev NotStale : List (Bytes × Rule) → Rule → Type 0
  NotStale kept r = is_stale kept r ≡ false

  pub unhashed_stale :
      (kept : List (Bytes × Rule)) (r : Rule) (e : Err)
      → hash_rule r ≡ err e
      → is_stale kept r ≡ true
  unfolding is_stale
  unhashed_stale kept r e h = rw (h, is_stale) refl

  pub is_stale-key :
      (kept : List (Bytes × Rule)) (r : Rule) (key : Bytes)
      → hash_rule r ≡ ok key
      → is_stale kept r ≡ not (has_key key kept)
  unfolding is_stale
  is_stale-key kept r key e = rw (e, is_stale)

  -- A rule that the kernel holds is spared by the clean-up once updateRule has succeeded for an
  -- equal one, whether that call added it, found it or replaced it, if both tables are of one
  -- family and GetRules returns rules of the table that it is asked for.
  pub update_rule-spared :
      (reads : ReadsAsked lib) (rule : Rule) (action : Rule → Command) (force : Bool)
      (s s' : NftState) (is_new : Bool) (r : Rule)
      → update_rule rule action force s ≡ (ok is_new, s')
      → rule_equal rule r ≡ true
      → rule.table.family ≡ r.table.family
      → is_stale s'.rules r ≡ false
  update_rule-spared reads rule action force s s' is_new r h same family =
      let (key, kept, e, e', rules) = rules-update_rule reads rule action force s s' is_new h in
      let hashed : hash_rule r ≡ ok key = sym (hash_rule-rule_equal rule r same family) ∙ e in
      is_stale-key s'.rules r key hashed ∙ rw rules (ground (arith, eq_bytes_iff key key))

  -- the commands that delete the stale ones among some rules
  abbrev pub stale_deletions : List (Bytes × Rule) → List Rule → List Command
  stale_deletions kept [] = []
  stale_deletions kept (r ∷ rs) =
      let rest = stale_deletions kept rs in if is_stale kept r then del_rule r ∷ rest else rest

  -- The sweep of a chain sends a deletion for each rule that the render has not kept, in order,
  -- and nothing else, also where a deletion fails; it forgets no rule and never stops early.
  pub sweep_rules-exact :
      (rs : List Rule) (w : Sweep) (s : NftState)
      → (w' : Sweep) × (sweep_rules rs w s
          ≡ (ok w', record s { sent = s.sent ++ stale_deletions s.rules rs }))
  unfolding sweep_rules
  sweep_rules-exact [] w s = (w, rw append-nil)
  sweep_rules-exact (r ∷ rs) w s = elim (Bool-cases (is_stale s.rules r)) [
    | inl stale ↦
        let c = del_rule r in
        let s1 = record s { sent = s.sent ++ (c ∷ []) } in
        let (w', h) = sweep_rules-exact rs (note_answer (on_conn (attempt c) s).0 w) s1 in
        (w', rw stale (rw (← append_assoc s.sent (c ∷ []) (stale_deletions s.rules rs)) h))
    | inr kept ↦ let (w', h) = sweep_rules-exact rs w s in (w', rw kept h)
  ]
