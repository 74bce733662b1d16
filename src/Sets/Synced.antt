-- ===== src/Sets/Synced.antt =====
-- What updateSet sends.
use mathlib.Core.List.{append_assoc, append-nil}
use multi_networkpolicy_nfta.Sets.{
  process_elements, set_key, short_set_name, sync_elements, apply_set, update_set,
}
use multi_networkpolicy_nfta.Sets.Elements.{has_element, without_keys, process_elements-keys}
use multi_networkpolicy_nfta.Nft.{
  NftSet, SetElement, Command, set_add_elements, set_delete_elements, Transcript, Libraries,
  NftState,
}
use multi_networkpolicy_nfta.Base.{
  if◌then◌else◌, is_empty, Bytes, eq_bytes, eq_bytes_iff, ok, ◌≡◌, refl, sym, ap, ◌∙◌, true, none,
  some, List, [], ◌∷◌, ◌++◌,
}

module _ ⦃lib : Libraries⦄ where
  -- the calls that turn the elements that are present into those that are wanted, deletions first
  abbrev pub sync_commands : NftSet → List SetElement × List SetElement → Transcript
  sync_commands existing (to_add, to_del) =
      (if is_empty to_del then [] else set_delete_elements existing to_del ∷ [])
      ++ (if is_empty to_add then [] else set_add_elements existing to_add ∷ [])

  sync_elements-ok :
      (existing : NftSet) (to_add to_del : List SetElement) (s : NftState)
      → ((t : Transcript) (c : Command) → lib.outcome t c ≡ none)
      → sync_elements existing to_add to_del s
        ≡ (ok tt, record s { sent = s.sent ++ sync_commands existing (to_add, to_del) })
  unfolding sync_elements
  sync_elements-ok existing [] [] s fine = rw append-nil refl
  sync_elements-ok existing (a ∷ more) [] s fine =
      rw (fine s.sent (set_add_elements existing (a ∷ more))) refl
  sync_elements-ok existing [] (d ∷ ds) s fine =
      rw (fine s.sent (set_delete_elements existing (d ∷ ds))) refl
  sync_elements-ok existing (a ∷ more) (d ∷ ds) s fine =
      let deletion = set_delete_elements existing (d ∷ ds) in
      let addition = set_add_elements existing (a ∷ more) in
      rw (fine s.sent deletion) (
        rw (fine (s.sent ++ (deletion ∷ [])) addition)
          (rw (append_assoc s.sent (deletion ∷ []) (addition ∷ [])) refl))

  -- what one command, and a list of them, make of the elements of the set of a name
  abbrev pub elements_on : Bytes → Command → List SetElement → List SetElement
  elements_on name (set_delete_elements set els) present =
      if eq_bytes set.name name then without_keys els present else present
  elements_on name (set_add_elements set els) present =
      if eq_bytes set.name name then present ++ els else present
  elements_on name _ present = present

  abbrev pub elements_after : Bytes → Transcript → List SetElement → List SetElement
  elements_after name [] present = present
  elements_after name (c ∷ t) present = elements_after name t (elements_on name c present)

  without_keys-nil : (els : List SetElement) → without_keys [] els ≡ els
  without_keys-nil [] = refl
  without_keys-nil (e ∷ els) = ap (λ l. e ∷ l) (without_keys-nil els)

  elements_after-sync_commands :
      (existing : NftSet) (to_add to_del present : List SetElement)
      → elements_after existing.name (sync_commands existing (to_add, to_del)) present
        ≡ without_keys to_del present ++ to_add
  elements_after-sync_commands existing to_add to_del present =
      let here = (eq_bytes_iff existing.name existing.name).1 refl in both to_add to_del here
    where
      both :
          (adds dels : List SetElement)
          → eq_bytes existing.name existing.name ≡ true
          → elements_after existing.name (sync_commands existing (adds, dels)) present
            ≡ without_keys dels present ++ adds
      both [] [] h = sym (append-nil (without_keys [] present) ∙ without_keys-nil present)
      both (a ∷ adds) [] h =
          rw (h, elements_after, elements_on)
            (ap (λ l. l ++ (a ∷ adds)) (sym (without_keys-nil present)))
      both [] (d ∷ dels) h =
          rw (h, elements_after, elements_on) (sym (append-nil (without_keys (d ∷ dels) present)))
      both (a ∷ adds) (d ∷ dels) h = rw (h, elements_after, elements_on) refl

  -- An update of a set that exists, where its name can be shortened, its elements can be read and no
  -- write fails, succeeds, keeps the set, and brings it to what is wanted: carried out on the
  -- elements that are present, its commands leave exactly the wanted keys.
  pub update_set-contents :
      (set named existing : NftSet) (elements present : List SetElement) (s : NftState)
      → short_set_name set ≡ ok named
      → lib.get_set_by_name s.sent named.table named.name ≡ (some existing, none)
      → lib.get_set_elements s.sent existing ≡ ok present
      → ((t : Transcript) (c : Command) → lib.outcome t c ≡ none)
      → (cmds : Transcript) × (update_set set elements s ≡ (
        ok named,
        record s { sent = s.sent ++ cmds; sets = (set_key named, existing) ∷ s.sets },
      ))
        × ((k : Bytes)
            → has_element k (elements_after existing.name cmds present) ≡ has_element k elements)
  unfolding update_set apply_set
  update_set-contents set named existing elements present s short found read fine =
      let (to_add, to_del) = process_elements elements present in
      let synced = sync_elements-ok existing to_add to_del s fine in
      (
        sync_commands existing (to_add, to_del),
        rw (short, update_set)
            (rw (found, apply_set) (rw (read, apply_set) (rw (synced, apply_set) refl))),
        λ k.
            ap (has_element k) (elements_after-sync_commands existing to_add to_del present)
            ∙ process_elements-keys elements present k,
      )
