-- ===== src/Rules/Growth.antt =====
-- The keys of kept rules across the calls of the connection and updateRule.
use multi_networkpolicy_nfta.Nft.{
  Chain, NftSet, Rule, Command, del_rule, Transcript, Libraries, NftState, has_key, Conn, Render,
  on_conn, send, attempt, ask, gets, keep_rule, keep_set, keep_chain,
}
use multi_networkpolicy_nfta.Rules.{
  last_equal, copy_counter, find_rule, place_rule, store_rule, update_rule,
}
use multi_networkpolicy_nfta.Keys.{hash_rule}
use multi_networkpolicy_nfta.Base.{
  Bytes, Err, Result, ◌>>=◌, ◌>>◌, pure, raise, lift, done, when, for_index, Keeps, Keeps-when,
  Keeps-bind, ℕ, suc, ◌≡◌, Bool, true, false, Option, none, some, List, [], ◌∷◌, arith,
}

-- a rule is kept under the key
abbrev pub HasKey : Bytes → NftState → Type 0
HasKey key s = has_key key s.rules ≡ true

-- Code that keeps every key that was there.
abbrev pub Grows : {A : Type 0} → Render A → Type 0
Grows m = (key : Bytes) → Keeps (HasKey key) m

module _ {A : Type 0} where
  pub Grows-on_conn : (m : Conn A) → Grows (on_conn m)
  Grows-on_conn m key = record { held = λ s h. h }

  pub Grows-gets : (f : NftState → A) → Grows (gets f)
  Grows-gets f key = record { held = λ s h. h }

  pub Grows-ask : (f : Transcript → Result A) → Grows (ask f)
  Grows-ask f key = record { held = λ s h. h }

  pub Grows-lift : (r : Result A) → Grows (lift r)
  Grows-lift r key = record { held = λ s h. h }

  pub Grows-pure : (a : A) → Grows (pure a)
  Grows-pure a key = record { held = λ s h. h }

  pub Grows-raise : (e : Err) → Grows (raise {A = A} e)
  Grows-raise e key = record { held = λ s h. h }

module _ {A B : Type 0} where
  pub Grows-bind :
      (m : Render A) (f : A → Render B) → Grows m → ((a : A) → Grows (f a)) → Grows (m >>= f)
  Grows-bind m f k ks key = Keeps-bind m f (k key) (λ a. ks a key)

pub Grows-when : (b : Bool) (m : Render (Unit {0})) → Grows m → Grows (when b m)
Grows-when b m k key = Keeps-when b m (λ _. k key)

pub Grows-done : Grows (done {S = NftState})
Grows-done key = record { held = λ s h. h }

module _ {A : Type 0} where
  pub Grows-for_index :
      (i : ℕ) (xs : List A) (f : ℕ → A → Render (Unit {0}))
      → ((j : ℕ) (a : A) → Grows (f j a))
      → Grows (for_index i xs f)
  Grows-for_index i [] f k = Grows-done
  Grows-for_index i (x ∷ xs) f k =
      Grows-bind (f i x) (λ _. for_index (suc i) xs f) (k i x) (λ _. Grows-for_index (suc i) xs f k)

pub Grows-keep_set : (key : Bytes) (set : NftSet) → Grows (keep_set key set)
Grows-keep_set k set key = record { held = λ s h. h }

pub Grows-keep_chain : (key : Bytes) (chain : Chain) → Grows (keep_chain key chain)
Grows-keep_chain k chain key = record { held = λ s h. h }

Grows-keep_rule : (key : Bytes) (rule : Rule) → Grows (keep_rule key rule)
Grows-keep_rule k rule key = record { held = λ s h. ground arith }

module _ ⦃lib : Libraries⦄ where
  Grows-place_rule :
      (rule : Rule) (action : Rule → Command) (force : Bool) (ex : Option Rule)
      → Grows (place_rule rule action force ex)
  unfolding place_rule
  Grows-place_rule rule action force none =
      Grows-bind (on_conn (send (action rule))) _ (Grows-on_conn (send (action rule)))
        (λ _. Grows-pure (rule, true))
  Grows-place_rule rule action false (some e) = Grows-pure (e, false)
  Grows-place_rule rule action true (some e) =
      let updated = record rule { exprs = copy_counter e.exprs rule.exprs } in
      Grows-bind (on_conn (attempt (del_rule e))) _ (Grows-on_conn (attempt (del_rule e))) (λ _.
        Grows-bind (on_conn (send (action updated))) _ (Grows-on_conn (send (action updated)))
          (λ _. Grows-pure (updated, false)))

  Grows-find_rule : (rule : Rule) → Grows (find_rule rule)
  unfolding find_rule
  Grows-find_rule rule =
      Grows-bind (ask (λ t. lib.get_rules t rule.table rule.chain)) _
        (Grows-ask (λ t. lib.get_rules t rule.table rule.chain))
        (λ rules. Grows-pure (last_equal rule rules none))

  Grows-store_rule : (placed : Rule × Bool) → Grows (store_rule placed)
  unfolding store_rule
  Grows-store_rule (kept, is_new) =
      Grows-bind (lift (hash_rule kept)) _ (Grows-lift (hash_rule kept))
        (λ k. Grows-bind (keep_rule k kept) _ (Grows-keep_rule k kept) (λ _. Grows-pure is_new))

  pub Grows-update_rule :
      (rule : Rule) (action : Rule → Command) (force : Bool) → Grows (update_rule rule action force)
  unfolding update_rule
  Grows-update_rule rule action force = Grows-bind (find_rule rule) _ (Grows-find_rule rule) (λ ex.
      Grows-bind (place_rule rule action force ex) store_rule
        (Grows-place_rule rule action force ex) Grows-store_rule)

  -- a rule that is put in place, and nothing after it
  pub Grows-rule :
      (rule : Rule) (action : Rule → Command) (force : Bool)
      → Grows (update_rule rule action force >> done)
  Grows-rule rule action force =
      Grows-bind (update_rule rule action force) _ (Grows-update_rule rule action force)
        (λ _. Grows-done)
