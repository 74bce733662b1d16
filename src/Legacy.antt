-- ===== src/Legacy.antt =====
-- Objects of older daemon versions in shared tables: CleanupLegacyTables and its helpers in
-- pkg/server/netfilterrules.go.
pub mod Safety
mod Samples
use mathlib.Core.List.{reverse}
use multi_networkpolicy_nfta.Nft.{
  inet, Table, Chain, NftSet, jump, goto, Expr, verdict, Rule, Command, del_chain, del_rule,
  del_set, flush, Transcript, Libraries, Conn, send, attempt,
}
use multi_networkpolicy_nfta.Chains.{ingress_chain_name, egress_chain_name}
use multi_networkpolicy_nfta.Base.{
  if◌then◌else◌, is_empty, any, Bytes, codes, eq_bytes, mem_bytes, has_prefix, Err, Result, ok,
  ◌>>=◌, ◌>>◌, pure, when, for_each, Bool, true, false, not, ◌&&◌, ◌||◌, Option, none, some, List,
  [], ◌∷◌, ◌++◌,
}

abbrev legacy_chain_names : List Bytes
legacy_chain_names =
    ingress_chain_name
    ∷ egress_chain_name
    ∷ (ingress_chain_name ++ codes "-common")
    ∷ (egress_chain_name ++ codes "-common")
    ∷ []

abbrev legacy_base_chain_names : List Bytes
legacy_base_chain_names = codes "input" ∷ codes "output" ∷ codes "prerouting" ∷ []

abbrev legacy_rule_comments : List Bytes
legacy_rule_comments =
    codes "input-interface-filter" ∷ codes "output-interface-filter" ∷ codes "nat-filter-rule" ∷ []

abbrev legacy_set_comments : List Bytes
legacy_set_comments = codes "Pod interfaces" ∷ codes "Pod interfaces NAT" ∷ []

-- comments of the daemon's own chains, beside those above
abbrev chain_rule_comments : List Bytes
chain_rule_comments =
    codes "common-ingress-chain"
    ∷ codes "common-egress-chain"
    ∷ codes "allow-ipv6-ndp-discovery"
    ∷ codes "allow-conntracked"
    ∷ codes "drop-remaining"
    ∷ []

-- the loop of `ruleReferencesChain`, which runs from the last expression to the first
expr_references : Bytes → Expr → Bool
expr_references chain_name (verdict jump c) = eq_bytes c chain_name
expr_references chain_name (verdict goto c) = eq_bytes c chain_name
expr_references chain_name _ = false

pub rule_references_chain : Rule → Bytes → Bool
unfolding expr_references
rule_references_chain rule chain_name = any (expr_references chain_name) (reverse rule.exprs)

pub legacy_daemon_set : NftSet → Bool
legacy_daemon_set set =
    eq_bytes set.name (codes "pod_interfaces") && mem_bytes set.comment legacy_set_comments

-- the test of `legacyDaemonRule`, on the comment of a rule
is_rule_comment : Option Bytes → Bool
is_rule_comment none = false
is_rule_comment (some comment) = mem_bytes comment legacy_rule_comments

-- the tests of `legacyDaemonChainRule`
is_chain_rule_comment : Option Bytes → Bool
is_chain_rule_comment none = false
is_chain_rule_comment (some comment) =
    if mem_bytes comment legacy_rule_comments
    then true
    else if mem_bytes comment chain_rule_comments
    then true
    else has_prefix comment (codes "policy:")
      || has_prefix comment (codes "common rule:")
      || has_prefix comment (codes "allow_icmp_")

module _ ⦃lib : Libraries⦄ where
  pub legacy_daemon_rule : Rule → Bool
  legacy_daemon_rule rule = is_rule_comment (lib.get_comment rule.user_data)

  pub legacy_daemon_chain_rule : Rule → Bool
  legacy_daemon_chain_rule rule = is_chain_rule_comment (lib.get_comment rule.user_data)

  -- a read of the bare connection
  abbrev read : {A : Type 0} → (Transcript → Result A) → Conn A
  read f t = (f t, t)

  abbrev succeeded : Option Err → Bool
  succeeded none = true
  succeeded (some e) = false

  -- a write whose error is logged and passed over: whether it succeeded
  abbrev tolerate : Command → Conn Bool
  tolerate c t = (ok (succeeded (lib.outcome t c)), t ++ (c ∷ []))

  -- The loop over the rules of a base chain: a rule that cannot be deleted is passed over. The
  -- result says that one was deleted.
  delete_base_rules : List Rule → Bool → Conn Bool
  delete_base_rules [] deleted = pure deleted
  delete_base_rules (r ∷ rs) deleted =
      if legacy_daemon_rule r
      then (do gone ← tolerate (del_rule r); delete_base_rules rs (gone || deleted))
      else delete_base_rules rs deleted

  clean_base_chains : Table → List Chain → Conn (Unit {0})
  unfolding delete_base_rules
  clean_base_chains table chains = for_each chains λ chain.
      when (eq_bytes chain.table.name table.name && mem_bytes chain.name legacy_base_chain_names)
        (do
          rules ← read (λ t. lib.get_rules t table chain)
          deleted ← delete_base_rules rules false
          when deleted (attempt flush))

  -- The loop of `cleanupLegacyDaemonChainRules`, which stops at an error.
  delete_chain_rules : List Rule → Bool → Conn Bool
  delete_chain_rules [] deleted = pure deleted
  delete_chain_rules (r ∷ rs) deleted =
      if legacy_daemon_chain_rule r
      then (do attempt (del_rule r); delete_chain_rules rs true)
      else delete_chain_rules rs deleted

  rules_left : Table → Chain → List Rule → Bool → Conn (List Rule)
  rules_left table chain rules false = pure rules
  rules_left table chain rules true = do attempt flush; read (λ t. lib.get_rules t table chain)

  -- true where rules are left in the chain
  cleanup_legacy_daemon_chain_rules : Table → Chain → Conn Bool
  unfolding delete_chain_rules rules_left
  cleanup_legacy_daemon_chain_rules table chain = do
    rules ← read (λ t. lib.get_rules t table chain)
    deleted ← delete_chain_rules rules false
    left ← rules_left table chain rules deleted
    pure (not (is_empty left))

  referenced_in : Table → Bytes → List Chain → Conn Bool
  referenced_in table chain_name [] = pure false
  referenced_in table chain_name (c ∷ cs) =
      if eq_bytes c.table.name table.name
      then (do
        rules ← read (λ t. lib.get_rules t table c)
        (if any (λ r. rule_references_chain r chain_name) rules
            then pure true
            else referenced_in table chain_name cs))
      else referenced_in table chain_name cs

  legacy_chain_referenced : Table → Bytes → Conn Bool
  unfolding referenced_in rule_references_chain
  legacy_chain_referenced table chain_name = do
    chains ← read (λ t. lib.list_chains_of_table_family t table.family)
    referenced_in table chain_name chains

  -- The loop over the daemon's own chains; the flag is `flushed`.
  delete_chains : Table → List Chain → Bool → Conn Bool
  delete_chains table [] flushed = pure flushed
  delete_chains table (c ∷ cs) flushed =
      if eq_bytes c.table.name table.name && mem_bytes c.name legacy_chain_names
      then (do
        remaining ← cleanup_legacy_daemon_chain_rules table c
        referenced ← legacy_chain_referenced table c.name
        (if referenced || remaining
            then delete_chains table cs flushed
            else (do send (del_chain c); delete_chains table cs true)))
      else delete_chains table cs flushed

  delete_sets : List NftSet → Bool → Conn Bool
  delete_sets [] flushed = pure flushed
  delete_sets (s ∷ rest) flushed =
      if legacy_daemon_set s
      then (do send (del_set s); delete_sets rest true)
      else delete_sets rest flushed

  -- one round of the loop over the tables
  clean_table : Table → Conn (Unit {0})
  unfolding clean_base_chains delete_chains delete_sets
  clean_table table = do
    chains ← read (λ t. lib.list_chains_of_table_family t inet)
    clean_base_chains table chains
    chains_gone ← delete_chains table chains false
    sets ← read (λ t. lib.get_sets t table)
    flushed ← delete_sets sets chains_gone
    when flushed (attempt flush)

  abbrev legacy_table_names : List Bytes
  legacy_table_names = codes "filter" ∷ codes "nat" ∷ []

  unfoldable pub cleanup_legacy_tables : Conn (Unit {0})
  unfolding clean_table cleanup_legacy_daemon_chain_rules legacy_chain_referenced
  cleanup_legacy_tables = do
    tables ← read (λ t. lib.list_tables_of_family t inet)
    for_each tables (λ table. when (mem_bytes table.name legacy_table_names) (clean_table table))
