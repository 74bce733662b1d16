-- ===== src/Sets/Growth.antt =====
-- The keys of kept rules across updateSet.
use multi_networkpolicy_nfta.Nft.{
  NftSet, SetElement, add_set, set_add_elements, set_delete_elements, Libraries, on_conn, attempt,
  ask, gets, keep_set,
}
use multi_networkpolicy_nfta.Sets.{
  process_elements, set_key, exists_in, short_set_name, sync_elements, create_set, apply_set,
  update_set,
}
use multi_networkpolicy_nfta.Rules.Growth.{
  Grows, Grows-on_conn, Grows-gets, Grows-ask, Grows-lift, Grows-pure, Grows-bind, Grows-when,
  Grows-keep_set,
}
use multi_networkpolicy_nfta.Base.{is_empty, lift, when, not, Option, none, some, List}

module _ ⦃lib : Libraries⦄ where
  sync_elements-Grows :
      (existing : NftSet) (to_add to_del : List SetElement)
      → Grows (sync_elements existing to_add to_del)
  unfolding sync_elements
  sync_elements-Grows existing to_add to_del =
      let deletion = on_conn (attempt (set_delete_elements existing to_del)) in
      let addition = on_conn (attempt (set_add_elements existing to_add)) in
      Grows-bind (when (not (is_empty to_del)) deletion) _
        (Grows-when (not (is_empty to_del)) deletion
          (Grows-on_conn (attempt (set_delete_elements existing to_del))))
        (λ _.
          Grows-when (not (is_empty to_add)) addition
            (Grows-on_conn (attempt (set_add_elements existing to_add))))

  create_set-Grows : (set : NftSet) (elements : List SetElement) → Grows (create_set set elements)
  unfolding create_set
  create_set-Grows set elements =
      Grows-bind (gets (λ s. lib.new_set_id s.sent set)) _
        (Grows-gets (λ s. lib.new_set_id s.sent set))
        (λ id.
          Grows-bind (on_conn (attempt (add_set set elements))) _
            (Grows-on_conn (attempt (add_set set elements)))
            (λ _.
              let set' = record set { id = id } in
              Grows-bind (keep_set (set_key set) set') _ (Grows-keep_set (set_key set) set')
                (λ _. Grows-pure set')))

  apply_set-Grows :
      (set : NftSet) (elements : List SetElement) (found : Option NftSet)
      → Grows (apply_set set elements found)
  unfolding apply_set
  apply_set-Grows set elements none = create_set-Grows set elements
  apply_set-Grows set elements (some existing) =
      Grows-bind (ask (λ t. lib.get_set_elements t existing)) _
        (Grows-ask (λ t. lib.get_set_elements t existing))
        (λ present.
          let p = process_elements elements present in
          Grows-bind (sync_elements existing p.0 p.1) _ (sync_elements-Grows existing p.0 p.1) (λ _.
            Grows-bind (keep_set (set_key set) existing) _ (Grows-keep_set (set_key set) existing)
              (λ _. Grows-pure set)))

  pub update_set-Grows :
      (set : NftSet) (elements : List SetElement) → Grows (update_set set elements)
  unfolding update_set
  update_set-Grows wanted elements =
      Grows-bind (lift (short_set_name wanted)) _ (Grows-lift (short_set_name wanted)) (λ set.
        Grows-bind (ask (λ t. exists_in (lib.get_set_by_name t set.table set.name))) _
          (Grows-ask (λ t. exists_in (lib.get_set_by_name t set.table set.name)))
          (apply_set-Grows set elements))
