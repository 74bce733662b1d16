-- ===== src/Legacy/Safety.antt =====
-- What the clean-up of shared tables may touch.
use multi_networkpolicy_nfta.Nft.{
  inet, Table, Chain, NftSet, Rule, Command, del_chain, del_rule, del_set, flush, Transcript,
  Libraries, send, attempt,
}
use multi_networkpolicy_nfta.Legacy.{
  legacy_chain_names, rule_references_chain, legacy_daemon_set, is_rule_comment,
  is_chain_rule_comment, legacy_daemon_rule, legacy_daemon_chain_rule, read, tolerate,
  delete_base_rules, clean_base_chains, delete_chain_rules, rules_left,
  cleanup_legacy_daemon_chain_rules, referenced_in, legacy_chain_referenced, delete_chains,
  delete_sets, clean_table, legacy_table_names, cleanup_legacy_tables,
}
use multi_networkpolicy_nfta.Base.{
  &&_iff, any, All, All-append, Bytes, eq_bytes, eq_bytes_iff, mem_bytes, Result, Keeps, Keeps-pure,
  Keeps-if, Keeps-when, Keeps-bind, Keeps-for_each, ◌≡◌, Bool, true, false, ◌&&◌, ◌||◌, Option,
  none, some, List, [], ◌∷◌,
}

module _ ⦃lib : Libraries⦄ where
  -- What may be deleted in a shared table: a rule with a comment of the daemon, a chain or a set
  -- with a name of the daemon in a table of the legacy names, and never a table.
  abbrev pub IsDaemonOwned : Command → Type 0
  IsDaemonOwned flush = Unit
  IsDaemonOwned (del_rule r) = legacy_daemon_chain_rule r ≡ true
  IsDaemonOwned (del_chain c) =
      (mem_bytes c.name legacy_chain_names ≡ true)
      × (mem_bytes c.table.name legacy_table_names ≡ true)
  IsDaemonOwned (del_set s) = legacy_daemon_set s ≡ true
  IsDaemonOwned _ = ⊥

  abbrev OwnOnly : Transcript → Type 0
  OwnOnly t = All IsDaemonOwned t

  is_rule_comment-chain_rule :
      (o : Option Bytes) → is_rule_comment o ≡ true → is_chain_rule_comment o ≡ true
  unfolding is_rule_comment is_chain_rule_comment
  is_rule_comment-chain_rule none h = cc
  is_rule_comment-chain_rule (some c) h = rw h

  legacy_daemon_rule-chain_rule :
      (r : Rule) → legacy_daemon_rule r ≡ true → legacy_daemon_chain_rule r ≡ true
  unfolding legacy_daemon_rule legacy_daemon_chain_rule
  legacy_daemon_rule-chain_rule r h = is_rule_comment-chain_rule (lib.get_comment r.user_data) h

  Keeps-attempt : (c : Command) → IsDaemonOwned c → Keeps OwnOnly (attempt c)
  Keeps-attempt c own = record { held = λ t h. All-append IsDaemonOwned t (c ∷ []) h (own, tt) }

  Keeps-send : (c : Command) → IsDaemonOwned c → Keeps OwnOnly (send c)
  Keeps-send c own = record { held = λ t h. All-append IsDaemonOwned t (c ∷ []) h (own, tt) }

  Keeps-read : {A : Type 0} (f : Transcript → Result A) → Keeps OwnOnly (read f)
  Keeps-read f = record { held = λ t h. h }

  Keeps-tolerate : (c : Command) → IsDaemonOwned c → Keeps OwnOnly (tolerate c)
  Keeps-tolerate c own = record { held = λ t h. All-append IsDaemonOwned t (c ∷ []) h (own, tt) }

  delete_base_rules-own :
      (rs : List Rule) (deleted : Bool) → Keeps OwnOnly (delete_base_rules rs deleted)
  unfolding delete_base_rules
  delete_base_rules-own [] deleted = Keeps-pure deleted
  delete_base_rules-own (r ∷ rs) deleted =
      Keeps-if (legacy_daemon_rule r) _ _
        (λ own.
          Keeps-bind (tolerate (del_rule r)) _
            (Keeps-tolerate (del_rule r) (legacy_daemon_rule-chain_rule r own))
            (λ gone. delete_base_rules-own rs (gone || deleted)))
        (λ _. delete_base_rules-own rs deleted)

  delete_chain_rules-own :
      (rs : List Rule) (deleted : Bool) → Keeps OwnOnly (delete_chain_rules rs deleted)
  unfolding delete_chain_rules
  delete_chain_rules-own [] deleted = Keeps-pure deleted
  delete_chain_rules-own (r ∷ rs) deleted =
      Keeps-if (legacy_daemon_chain_rule r) _ _
        (λ own.
          Keeps-bind (attempt (del_rule r)) _ (Keeps-attempt (del_rule r) own)
            (λ _. delete_chain_rules-own rs true))
        (λ _. delete_chain_rules-own rs deleted)

  rules_left-own :
      (table : Table) (chain : Chain) (rs : List Rule) (deleted : Bool)
      → Keeps OwnOnly (rules_left table chain rs deleted)
  unfolding rules_left
  rules_left-own table chain rs false = Keeps-pure rs
  rules_left-own table chain rs true =
      Keeps-bind (attempt flush) _ (Keeps-attempt flush tt) (λ _. Keeps-read _)

  cleanup_chain_rules-own :
      (table : Table) (chain : Chain)
      → Keeps OwnOnly (cleanup_legacy_daemon_chain_rules table chain)
  unfolding cleanup_legacy_daemon_chain_rules
  cleanup_chain_rules-own table chain =
      Keeps-bind (read (λ t. lib.get_rules t table chain)) _ (Keeps-read _) (λ rules.
        Keeps-bind (delete_chain_rules rules false) _ (delete_chain_rules-own rules false)
          (λ deleted.
            Keeps-bind (rules_left table chain rules deleted) _
              (rules_left-own table chain rules deleted) (λ left. Keeps-pure _)))

  referenced_in-own :
      (table : Table) (name : Bytes) (cs : List Chain) → Keeps OwnOnly (referenced_in table name cs)
  unfolding referenced_in
  referenced_in-own table name [] = Keeps-pure false
  referenced_in-own table name (c ∷ cs) =
      Keeps-if (eq_bytes c.table.name table.name) _ _
        (λ _. Keeps-bind (read (λ t. lib.get_rules t table c)) _ (Keeps-read _) (λ rules.
          Keeps-if (any (λ r. rule_references_chain r name) rules) _ _ (λ _. Keeps-pure true)
            (λ _. referenced_in-own table name cs)))
        (λ _. referenced_in-own table name cs)

  legacy_chain_referenced-own :
      (table : Table) (name : Bytes) → Keeps OwnOnly (legacy_chain_referenced table name)
  unfolding legacy_chain_referenced
  legacy_chain_referenced-own table name =
      Keeps-bind (read (λ t. lib.list_chains_of_table_family t table.family)) _ (Keeps-read _)
        (λ chains. referenced_in-own table name chains)

  delete_chains-own :
      (table : Table) (cs : List Chain) (flushed : Bool)
      → mem_bytes table.name legacy_table_names ≡ true
      → Keeps OwnOnly (delete_chains table cs flushed)
  unfolding delete_chains
  delete_chains-own table [] flushed legacy = Keeps-pure flushed
  delete_chains-own table (c ∷ cs) flushed legacy =
      Keeps-if (eq_bytes c.table.name table.name && mem_bytes c.name legacy_chain_names) _ _
        (λ own.
          Keeps-bind (cleanup_legacy_daemon_chain_rules table c) _ (cleanup_chain_rules-own table c)
            (λ remaining.
              Keeps-bind (legacy_chain_referenced table c.name) _
                (legacy_chain_referenced-own table c.name)
                (λ referenced.
                  Keeps-if (referenced || remaining) _ _
                    (λ _. delete_chains-own table cs flushed legacy)
                    (λ _.
                      Keeps-bind (send (del_chain c)) _ (Keeps-send (del_chain c) (named own))
                        (λ _. delete_chains-own table cs true legacy)))))
        (λ _. delete_chains-own table cs flushed legacy)
    where
      named :
          (eq_bytes c.table.name table.name && mem_bytes c.name legacy_chain_names) ≡ true
          → IsDaemonOwned (del_chain c)
      named own =
          let both =
            (&&_iff (eq_bytes c.table.name table.name) (mem_bytes c.name legacy_chain_names)).0
              own in
          (both.1, rw ((eq_bytes_iff c.table.name table.name).0 both.0) legacy)

  delete_sets-own : (sets : List NftSet) (flushed : Bool) → Keeps OwnOnly (delete_sets sets flushed)
  unfolding delete_sets
  delete_sets-own [] flushed = Keeps-pure flushed
  delete_sets-own (s ∷ rest) flushed =
      Keeps-if (legacy_daemon_set s) _ _
        (λ own.
          Keeps-bind (send (del_set s)) _ (Keeps-send (del_set s) own)
            (λ _. delete_sets-own rest true))
        (λ _. delete_sets-own rest flushed)

  clean_base_chains-own :
      (table : Table) (chains : List Chain) → Keeps OwnOnly (clean_base_chains table chains)
  unfolding clean_base_chains
  clean_base_chains-own table chains = Keeps-for_each chains _ (λ chain. Keeps-when _ _ (λ _.
      Keeps-bind (read (λ t. lib.get_rules t table chain)) _ (Keeps-read _) (λ rules.
        Keeps-bind (delete_base_rules rules false) _ (delete_base_rules-own rules false)
          (λ deleted. Keeps-when deleted (attempt flush) (λ _. Keeps-attempt flush tt)))))

  clean_table-own :
      (table : Table)
      → mem_bytes table.name legacy_table_names ≡ true
      → Keeps OwnOnly (clean_table table)
  unfolding clean_table
  clean_table-own table legacy =
      Keeps-bind (read (λ t. lib.list_chains_of_table_family t inet)) _ (Keeps-read _) (λ chains.
        Keeps-bind (clean_base_chains table chains) _ (clean_base_chains-own table chains) (λ _.
          Keeps-bind (delete_chains table chains false) _
            (delete_chains-own table chains false legacy)
            (λ gone. Keeps-bind (read (λ t. lib.get_sets t table)) _ (Keeps-read _) (λ sets.
              Keeps-bind (delete_sets sets gone) _ (delete_sets-own sets gone)
                (λ flushed. Keeps-when flushed (attempt flush) (λ _. Keeps-attempt flush tt))))))

  -- Whatever the library and the kernel answer, the clean-up of the shared tables deletes no table
  -- and adds nothing: each command is a flush, or deletes a rule with one of the daemon's comments,
  -- a chain with one of the daemon's names in a table of the legacy names, or one of its sets.
  pub cleanup_legacy_tables-own_only : All IsDaemonOwned (cleanup_legacy_tables []).1
  unfolding cleanup_legacy_tables
  cleanup_legacy_tables-own_only =
      (Keeps-bind (read (λ t. lib.list_tables_of_family t inet)) _ (Keeps-read _) (λ tables.
          Keeps-for_each tables _ (λ table.
            Keeps-when (mem_bytes table.name legacy_table_names) (clean_table table)
              (clean_table-own table)))).held
        [] tt
