-- ===== src/Base/Outcome.antt =====
-- Results of fallible calls, and code that changes a state and may fail.
use Prim.Native.Nat.{ℕ, suc}
use mathlib.Core.Bool.{Bool, true, false}
use mathlib.Core.Option.{Option, none, some}
use mathlib.Core.Path.{◌≡◌, refl}
use mathlib.Core.Logic.{◌⊎◌, inl, inr}
use mathlib.Core.List.{List, [], ◌∷◌}

-- The causes of an error. The texts that `fmt.Errorf` wraps round a cause are not kept.
-- `foreign` numbers the errors of libraries and of the cluster that the code does not tell apart.
pub data Err : Type 0 where
  not_exist already_exist : Err
  foreign : ℕ → Err
  encode_failed no_interfaces bad_prefix bad_address bad_selector : Err
  named_port port_out_of_range unknown_peer : Err
  not_running no_container_status no_container_id bad_container_id no_cri bad_status_info
        not_an_object :
      Err
  empty_endpoint empty_netns empty_plugin_type relative_endpoint url_endpoint : Err
  fd_overflow invalid_runtime not_ready unsupported_platform : Err
  joined : Err → Err → Err

-- errors.Is(err, os.ErrNotExist), on the error of a library call itself
abbrev pub is_not_exist : Err → Bool
is_not_exist not_exist = true
is_not_exist _ = false

-- errors.Is(err, os.ErrExist)
abbrev pub is_exist : Err → Bool
is_exist already_exist = true
is_exist _ = false

-- errors.Join of the errors of a list
abbrev pub join_errors : List Err → Option Err
join_errors [] = none
join_errors (e ∷ es) = elim (join_errors es) [ none ↦ some e | some r ↦ some (joined e r) ]

pub data Result {ℓ} (A : Type ℓ) : Type ℓ where
  ok : A → Result A
  err : Err → Result A

pub Result-cases {ℓ} :
    {A : Type ℓ} (r : Result A) → ((a : A) × (r ≡ ok a)) ⊎ ((e : Err) × (r ≡ err e))
Result-cases (ok a) = inl (a, refl)
Result-cases (err e) = inr (e, refl)

-- The state as it is left, beside the error too: what was sent before a failure stays sent.
abbrev pub Exec : Type 0 → Type 0 → Type 0
Exec S A = S → Result A × S

module _ {S A B : Type 0} where
  abbrev pub continue : Result A → (A → Exec S B) → Exec S B
  continue (ok a) f s = f a s
  continue (err e) f s = (err e, s)

  infixl 5 ◌>>=◌ ◌>>◌
  abbrev pub ◌>>=◌ : Exec S A → (A → Exec S B) → Exec S B
  ◌>>=◌ m f s = let (r, s') = m s in continue r f s'

  abbrev pub ◌>>◌ : Exec S A → Exec S B → Exec S B
  m >> n = m >>= λ _. n

module _ {S A : Type 0} where
  abbrev pub pure : A → Exec S A
  pure a s = (ok a, s)

  abbrev pub raise : Err → Exec S A
  raise e s = (err e, s)

  abbrev pub lift : Result A → Exec S A
  lift r s = (r, s)

module _ {S : Type 0} where
  abbrev pub done : Exec S (Unit {0})
  done s = (ok tt, s)

  -- `if err := ...; err != nil { return err }`
  abbrev pub check : Option Err → Exec S (Unit {0})
  check none s = (ok tt, s)
  check (some e) s = (err e, s)

  -- an `if` with no `else`
  abbrev pub when : Bool → Exec S (Unit {0}) → Exec S (Unit {0})
  when true m s = m s
  when false m s = (ok tt, s)

module _ {S A : Type 0} where
  -- `for _, x := range xs` whose body returns on an error
  abbrev pub for_each : List A → (A → Exec S (Unit {0})) → Exec S (Unit {0})
  for_each [] f = done
  for_each (x ∷ xs) f = f x >> for_each xs f

  -- `for i, x := range xs`, from the index `i`
  abbrev pub for_index : ℕ → List A → (ℕ → A → Exec S (Unit {0})) → Exec S (Unit {0})
  for_index i [] f = done
  for_index i (x ∷ xs) f = f i x >> for_index (suc i) xs f

continue-eq-ok :
    {S A B : Type 0} (r : Result A) (s' : S) (f : A → Exec S B) {b : B} {s'' : S}
    → continue r f s' ≡ (ok b, s'')
    → (a : A) × (r ≡ ok a) × (f a s' ≡ (ok b, s''))
continue-eq-ok (ok a) s' f h = (a, refl, h)
continue-eq-ok (err e) s' f h = cc

-- Inversion of a successful bind.
pub >>=-eq-ok :
    {S A B : Type 0} (m : Exec S A) (f : A → Exec S B) (s : S) {b : B} {s'' : S}
    → (m >>= f) s ≡ (ok b, s'')
    → (a : A) × ((m s).0 ≡ ok a) × (f a (m s).1 ≡ (ok b, s''))
>>=-eq-ok m f s h = continue-eq-ok (m s).0 (m s).1 f h
