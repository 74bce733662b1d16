-- ===== src/Cleanup.antt =====
-- What is no longer wanted: cleanup, cleanupRules and cleanupChains of
-- pkg/server/netfilterrules.go.
pub mod Chains
pub mod Kept
mod Samples
use multi_networkpolicy_nfta.Nft.{
  inet, Table, Chain, NftSet, Rule, del_chain, del_rule, del_set, flush, Libraries, has_key, Render,
  on_conn, send, attempt, ask, gets,
}
use multi_networkpolicy_nfta.Keys.{hash_rule}
use multi_networkpolicy_nfta.Sets.{set_key}
use multi_networkpolicy_nfta.Chains.{chain_id}
use multi_networkpolicy_nfta.Base.{
  if◌then◌else◌, is_empty, Bytes, eq_bytes, mem_bytes, Err, join_errors, Result, ok, err, ◌>>=◌,
  ◌>>◌, pure, check, when, Bool, true, false, not, ◌&&◌, List, [], ◌∷◌, ◌++◌,
}

-- `performFlush` and `cleanupErrs`
pub record Sweep : Type 0 where
  pub flush_needed : Bool
  pub errors : List Err

module _ ⦃lib : Libraries⦄ where
  -- `_, exists := n.rules[key]`, and a rule with no key counts as stale
  pub is_stale : List (Bytes × Rule) → Rule → Bool
  is_stale kept rule = elim (hash_rule rule) [ err e ↦ true | ok key ↦ not (has_key key kept) ]

  -- the deletion of one stale rule: an error is kept and the loop goes on
  note_answer : Result (Unit {0}) → Sweep → Sweep
  note_answer (ok _) w = record w { flush_needed = true }
  note_answer (err e) w = record w { errors = w.errors ++ (e ∷ []) }

  pub sweep_rules : List Rule → Sweep → Render Sweep
  unfolding is_stale note_answer
  sweep_rules [] w s = (ok w, s)
  sweep_rules (r ∷ rs) w s =
      if is_stale s.rules r
      then (let (answer, s') = on_conn (attempt (del_rule r)) s in
          sweep_rules rs (note_answer answer w) s')
      else sweep_rules rs w s

  sweep_chains : Table → List Chain → Sweep → Render Sweep
  unfolding sweep_rules
  sweep_chains table [] w = pure w
  sweep_chains table (c ∷ cs) w =
      if eq_bytes c.table.name table.name
      then (do
        rules ← ask (λ t. lib.get_rules t table c)
        w' ← sweep_rules rules w
        sweep_chains table cs w')
      else sweep_chains table cs w

  sweep_sets : List NftSet → Sweep → Render Sweep
  sweep_sets [] w s = (ok w, s)
  sweep_sets (set ∷ rest) w s =
      if not (has_key (set_key set) s.sets) && not set.anonymous
      then (let (answer, s') = on_conn (send (del_set set)) s in
          sweep_sets rest (record w { flush_needed = true }) s')
      else sweep_sets rest w s

  cleanup_rules : Table → Render (Unit {0})
  unfolding sweep_chains sweep_sets
  cleanup_rules table = do
    chains ← ask (λ t. lib.list_chains_of_table_family t table.family)
    w ← sweep_chains table chains (record { flush_needed = false; errors = [] })
    sets ← ask (λ t. lib.get_sets t table)
    w' ← sweep_sets sets w
    when w'.flush_needed (on_conn (attempt flush))
    check (join_errors w'.errors)

  -- the loop of `cleanupChains`; the flag is `performFlush`
  sweep_empty_chains : List Chain → Bool → Render Bool
  sweep_empty_chains [] perform_flush = pure perform_flush
  sweep_empty_chains (c ∷ cs) perform_flush = do
    names ← gets (λ s. s.filter.name ∷ s.nat.name ∷ [])
    (if not (mem_bytes c.table.name names) then sweep_empty_chains cs perform_flush else (do
      rules ← ask (λ t. lib.get_rules t c.table c)
      used ← gets (λ s. has_key (chain_id c) s.chains)
      (if not used && is_empty rules
          then (do on_conn (send (del_chain c)); sweep_empty_chains cs true)
          else sweep_empty_chains cs perform_flush)))

  pub cleanup_chains : Render (Unit {0})
  unfolding sweep_empty_chains
  cleanup_chains = do
    chains ← ask (λ t. lib.list_chains_of_table_family t inet)
    perform_flush ← sweep_empty_chains chains false
    when perform_flush (on_conn (attempt flush))

  cleanup_body : Render (Unit {0})
  unfolding cleanup_rules cleanup_chains
  cleanup_body = do
    filter ← gets (λ s. s.filter)
    cleanup_rules filter
    nat ← gets (λ s. s.nat)
    cleanup_rules nat
    cleanup_chains

  -- the deferred reset runs on every way out
  unfoldable pub cleanup : Render (Unit {0})
  unfolding cleanup_body
  cleanup s = let (r, s') = cleanup_body s in (r, record s' { rules = []; sets = []; chains = [] })
