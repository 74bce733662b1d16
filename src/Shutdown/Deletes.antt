-- ===== src/Shutdown/Deletes.antt =====
-- What a flush at the end that succeeds has deleted.
use multi_networkpolicy_nfta.Nft.{inet, Table, del_table, Transcript, Libraries}
use multi_networkpolicy_nfta.Base.{
  All, Bytes, Err, is_not_exist, ok, err, ℕ, ◌≤◌, ◌≡◌, ◌⊎◌, true, List, ◌∷◌, ◌++◌,
}

module _ ⦃lib : Libraries⦄ where
  -- a table that the kernel showed was deleted right then
  abbrev pub Gone : Bytes → Transcript → Type 0
  Gone name cmds =
      (before : Transcript) × (behind_it : Transcript) × (table : Table) × (lib.list_table_of_family
          before name inet
        ≡ ok table)
      × (cmds ≡ before ++ (del_table table ∷ behind_it))

  -- the kernel said that there is no such table
  abbrev pub Absent : Bytes → Transcript → Type 0
  Absent name cmds =
      (before : Transcript) × (behind_it : Transcript) × (e : Err) × (lib.list_table_of_family
          before name inet
        ≡ err e)
      × (is_not_exist e ≡ true)
      × (cmds ≡ before ++ behind_it)

  -- the tables up to some point of a list have been looked for, `n - d` of them were there
  record Looked (names : List Bytes) (d n : ℕ) (t t' : Transcript) : Type 0 where
    more : Transcript
    grown : t' ≡ t ++ more
    counted : d ≤ n
    each : All (λ name. Gone name t' ⊎ Absent name t') names
    none_found : n ≡ d → All (λ name. Absent name t') names
