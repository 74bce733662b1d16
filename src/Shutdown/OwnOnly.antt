-- ===== src/Shutdown/OwnOnly.antt =====
-- What a flush at the end may delete.
use multi_networkpolicy_nfta.Nft.{inet, Table, Command, del_table, Transcript, Libraries}
use multi_networkpolicy_nfta.Chains.{filter_table_name, nat_table_name}
use multi_networkpolicy_nfta.Legacy.Safety.{IsDaemonOwned}
use multi_networkpolicy_nfta.Base.{Bytes, mem_bytes, ok, ◌≡◌, true, [], ◌∷◌}

-- ListTableOfFamily returns the table that it is asked for.
pub record TablesAsked (lib : Libraries) : Type 0 where
  pub named :
      (t : Transcript) (name : Bytes) (table : Table)
      → lib.list_table_of_family t name inet ≡ ok table
      → table.name ≡ name

module _ ⦃lib : Libraries⦄ where
  -- a table of the daemon's two names, or an object of its own in a shared table
  abbrev pub IsOwn : Command → Type 0
  IsOwn (del_table table) = mem_bytes table.name (filter_table_name ∷ nat_table_name ∷ []) ≡ true
  IsOwn c = IsDaemonOwned c
