-- ===== src/Base/Invariants.antt =====
-- Invariants of code that changes a state, with one rule for each way to build such code.
use mathlib.Core.Path.{◌≡◌, refl}
use mathlib.Core.Bool.{Bool, true, false}
use mathlib.Core.Option.{Option, none, some}
use mathlib.Core.List.{List, [], ◌∷◌}
use multi_networkpolicy_nfta.Base.Tests.{if◌then◌else◌}
use multi_networkpolicy_nfta.Base.Outcome.{
  Err, Result, ok, err, Exec, continue, ◌>>=◌, pure, check, when, for_each,
}

-- The invariant `I` survives `code`, whether `code` succeeds or fails.
pub record Keeps {S A : Type 0} (I : S → Type 0) (code : Exec S A) : Type 0 where
  pub held : (before : S) → I before → I (code before).1

module _ {S : Type 0} {I : S → Type 0} where
  pub Keeps-when :
      (test : Bool) (code : Exec S (Unit {0}))
      → (test ≡ true → Keeps I code)
      → Keeps I (when test code)
  Keeps-when false code k = record { held = λ before i. i }
  Keeps-when true code k = record { held = (k refl).held }

  pub Keeps-check : (e : Option Err) → Keeps I (check e)
  Keeps-check (some e) = record { held = λ before i. i }
  Keeps-check none = record { held = λ before i. i }

module _ {S A B : Type 0} {I : S → Type 0} where
  -- the rest of a block starts from the state that the first part has left
  Keeps-continue :
      (answer : Result A) (rest : A → Exec S B) (mid : S)
      → I mid
      → ((a : A) → Keeps I (rest a))
      → I (continue answer rest mid).1
  Keeps-continue (err e) rest mid i k = i
  Keeps-continue (ok a) rest mid i k = (k a).held mid i

  pub Keeps-bind :
      (first : Exec S A) (rest : A → Exec S B)
      → Keeps I first
      → ((a : A) → Keeps I (rest a))
      → Keeps I (first >>= rest)
  Keeps-bind first rest k ks = record {
    held = λ s i. Keeps-continue (first s).0 rest (first s).1 (k.held s i) ks;
  }

module _ {S A : Type 0} {I : S → Type 0} where
  pub Keeps-pure : (a : A) → Keeps I (pure a)
  Keeps-pure a = record { held = λ before i. i }

  pub Keeps-if :
      (test : Bool) (yea nay : Exec S A)
      → (test ≡ true → Keeps I yea)
      → (test ≡ false → Keeps I nay)
      → Keeps I (if test then yea else nay)
  Keeps-if false yea nay on off = off refl
  Keeps-if true yea nay on off = on refl

  pub Keeps-for_each :
      (xs : List A) (f : A → Exec S (Unit {0}))
      → ((a : A) → Keeps I (f a))
      → Keeps I (for_each xs f)
  Keeps-for_each [] f k = record { held = λ before i. i }
  Keeps-for_each (x ∷ xs) f k = record {
    held = (Keeps-bind (f x) (λ _. for_each xs f) (k x) (λ _. Keeps-for_each xs f k)).held;
  }
