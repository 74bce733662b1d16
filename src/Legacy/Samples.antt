-- ===== src/Legacy/Samples.antt =====
-- A kernel with a table of another program that has the daemon's old name.
use multi_networkpolicy_nfta.Nft.{inet, Table, Libraries}
use multi_networkpolicy_nfta.Nft.Fake.{fresh}
use multi_networkpolicy_nfta.Legacy.{cleanup_legacy_tables}
use multi_networkpolicy_nfta.Legacy.Safety.{IsDaemonOwned, cleanup_legacy_tables-own_only}
use multi_networkpolicy_nfta.Base.{All, codes, ok, none, [], ◌∷◌}

abbrev shared_table : Table
shared_table = record { name = codes "filter"; family = inet }

abbrev crowded : Libraries
crowded = record fresh {
  list_tables_of_family = λ t family. ok (shared_table ∷ []);
  list_chains_of_table_family = λ t family.
      ok (record { name = codes "multi-ingress"; table = shared_table; base = none } ∷ []);
}

cleanup_legacy_tables-own_only_example :
    All (IsDaemonOwned ⦃lib = crowded⦄) (cleanup_legacy_tables ⦃lib = crowded⦄ []).1
cleanup_legacy_tables-own_only_example = cleanup_legacy_tables-own_only ⦃lib = crowded⦄
