-- ===== src/Shutdown/Exact.antt =====
-- When the rules are flushed at the end.
use multi_networkpolicy_nfta.Shutdown.{start_manager_and_cleanup}
use multi_networkpolicy_nfta.Base.{Err, ◌≡◌, ◌↔◌, ◌⊎◌, Bool, true, false, Option, none, some, arith}

-- The clean-up runs unless the manager stopped with an error while the context was not cancelled,
-- and then that error is the result; where the clean-up runs, the result is an error iff the
-- manager or the clean-up had one.
pub start_manager_and_cleanup-ran_iff :
    (start : Option Err) (canceled : Bool) (cleanup : Option Err)
    → let (ran, result) = start_manager_and_cleanup start canceled cleanup in
      ((ran ≡ true) ↔ ((start ≡ none) ⊎ (canceled ≡ true)))
      × (ran ≡ false → result ≡ start)
      × (ran ≡ true → (result ≡ none) ↔ ((start ≡ none) × (cleanup ≡ none)))
unfolding start_manager_and_cleanup
start_manager_and_cleanup-ran_iff none canceled none = ground arith
start_manager_and_cleanup-ran_iff none canceled (some e) = ground arith
start_manager_and_cleanup-ran_iff (some e) true none = ground arith
start_manager_and_cleanup-ran_iff (some e) true (some e') = ground arith
start_manager_and_cleanup-ran_iff (some e) false cleanup = ground arith
