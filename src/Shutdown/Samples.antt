-- ===== src/Shutdown/Samples.antt =====
-- A manager that stops with an error while the context is cancelled.
use multi_networkpolicy_nfta.Shutdown.{start_manager_and_cleanup}
use multi_networkpolicy_nfta.Shutdown.Exact.{start_manager_and_cleanup-ran_iff}
use multi_networkpolicy_nfta.Nft.{inet, Libraries}
use multi_networkpolicy_nfta.Nft.Fake.{fresh}
use multi_networkpolicy_nfta.Base.{
  codes, Err, no_cri, ok, ◌≡◌, ◌↔◌, ◌⊎◌, true, false, Option, none, some, [], ◌∷◌,
}

abbrev no_error : Option Err
no_error = none

start_manager_and_cleanup-ran_iff_example :
    ((true ≡ true) ↔ ((some no_cri ≡ none) ⊎ (true ≡ true)))
    × (true ≡ false → (start_manager_and_cleanup (some no_cri) true none).1 ≡ some no_cri)
    × (true ≡ true
        → ((start_manager_and_cleanup (some no_cri) true none).1 ≡ none)
          ↔ ((some no_cri ≡ none) × (no_error ≡ none)))
unfolding start_manager_and_cleanup
start_manager_and_cleanup-ran_iff_example =
    start_manager_and_cleanup-ran_iff (some no_cri) true none

-- a kernel in which every table exists, one of them shared
abbrev tables_there : Libraries
tables_there = record fresh {
  list_table_of_family = λ t name family. ok (record { name = name; family = family });
  list_tables_of_family = λ t family. ok (record { name = codes "filter"; family = inet } ∷ []);
}
