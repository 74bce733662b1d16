-- ===== src/Sets/Samples.antt =====
-- Sets of addresses that change.
use multi_networkpolicy_nfta.Sets.{process_elements, set_key, short_set_name, update_set}
use multi_networkpolicy_nfta.Sets.Elements.{
  has_element, without_keys, process_elements-keys, process_elements-common_key,
}
use multi_networkpolicy_nfta.Sets.Synced.{elements_after, update_set-contents}
use multi_networkpolicy_nfta.Nft.{ip_addr_key, NftSet, SetElement, Transcript, Libraries}
use multi_networkpolicy_nfta.Nft.Fake.{fresh, filter_table, start}
use multi_networkpolicy_nfta.Fields.{plain_element, end_element, new_set}
use multi_networkpolicy_nfta.Base.{
  Bytes, codes, ok, ◌≡◌, refl, false, none, some, List, [], ◌∷◌, ◌++◌,
}

abbrev wanted_elements : List SetElement
wanted_elements = plain_element (10 ∷ 0 ∷ 0 ∷ 2 ∷ []) ∷ plain_element (10 ∷ 0 ∷ 0 ∷ 3 ∷ []) ∷ []

abbrev present_elements : List SetElement
present_elements = plain_element (10 ∷ 0 ∷ 0 ∷ 3 ∷ []) ∷ end_element (10 ∷ 0 ∷ 0 ∷ 9 ∷ []) ∷ []

abbrev first_key : Bytes
first_key = 10 ∷ 0 ∷ 0 ∷ 3 ∷ []

process_elements-keys_example :
    has_element first_key (
      without_keys (process_elements wanted_elements present_elements).1 present_elements
      ++ (process_elements wanted_elements present_elements).0)
    ≡ has_element first_key wanted_elements
process_elements-keys_example = process_elements-keys wanted_elements present_elements first_key

-- the set ends an interval where the wanted one begins its own
abbrev begins : List SetElement
begins = plain_element first_key ∷ end_element (10 ∷ 0 ∷ 0 ∷ 5 ∷ []) ∷ []

abbrev ends : List SetElement
ends = plain_element (10 ∷ 0 ∷ 0 ∷ 1 ∷ []) ∷ end_element first_key ∷ []

process_elements-common_key_example :
    (has_element first_key (process_elements begins ends).0 ≡ false)
    × (has_element first_key (process_elements begins ends).1 ≡ false)
process_elements-common_key_example = process_elements-common_key begins ends first_key refl refl

abbrev address_set : NftSet
address_set = new_set filter_table (codes "addresses") ip_addr_key false false false

-- a kernel that holds the set with other elements
abbrev holding_other : Libraries
holding_other = record fresh {
  get_set_by_name = λ t table name. (some address_set, none);
  get_set_elements = λ t set. ok present_elements;
}

update_set-contents_example :
    (cmds : Transcript) × (update_set ⦃lib = holding_other⦄ address_set wanted_elements start ≡ (
      ok address_set,
      record start { sent = cmds; sets = (set_key address_set, address_set) ∷ [] },
    ))
    × ((k : Bytes)
        → has_element k
            (elements_after ⦃lib = holding_other⦄ address_set.name cmds present_elements)
          ≡ has_element k wanted_elements)
unfolding short_set_name
update_set-contents_example =
    update_set-contents ⦃lib = holding_other⦄ address_set address_set address_set wanted_elements
      present_elements start refl refl refl (λ t c. refl)
