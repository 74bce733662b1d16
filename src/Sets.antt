-- ===== src/Sets.antt =====
-- Sets: processElements, findNonCommon, isPresent and updateSet of pkg/server/netfilterrules.go.
pub mod Growth
pub mod Synced
pub mod Elements
mod Samples
use multi_networkpolicy_nfta.Keys.{hash_text}
use multi_networkpolicy_nfta.Nft.{
  NftSet, SetElement, add_set, set_add_elements, set_delete_elements, Libraries, Render, on_conn,
  attempt, ask, gets, keep_set,
}
use multi_networkpolicy_nfta.Base.{
  ltb, if◌then◌else◌, length, is_empty, any, Bytes, codes, eq_bytes, Err, is_not_exist, Result, ok,
  err, ◌>>=◌, ◌>>◌, pure, lift, when, Bool, not, Option, none, some, List, [], ◌∷◌, ◌++◌,
}

is_present : SetElement → List SetElement → Bool
is_present to_check elements = any (λ e. eq_bytes to_check.key e.key) elements

find_non_common : List SetElement → List SetElement → List SetElement
find_non_common [] b = []
find_non_common (x ∷ xs) b =
    let rest = find_non_common xs b in if not (is_present x b) then x ∷ rest else rest

-- the elements to add, and those to delete
pub process_elements : List SetElement → List SetElement → List SetElement × List SetElement
unfolding find_non_common is_present
process_elements new_els existing_els =
    (find_non_common new_els existing_els, find_non_common existing_els new_els)

abbrev pub set_key : NftSet → Bytes
set_key set = set.table.name ++ (codes "-" ++ set.name)

abbrev pub exists_in : Option NftSet × Option Err → Result (Option NftSet)
exists_in (found, none) = ok found
exists_in (found, some e) = if is_not_exist e then ok none else err e

module _ ⦃lib : Libraries⦄ where
  -- a name of more than 31 bytes is replaced by its hash
  unfoldable pub short_set_name : NftSet → Result NftSet
  short_set_name set =
      if ltb 31 (length set.name)
      then elim (hash_text set.name) [ ok h ↦ ok (record set { name = h }) | err e ↦ err e ]
      else ok set

  -- the calls on a set that is there
  sync_elements : NftSet → List SetElement → List SetElement → Render (Unit {0})
  sync_elements existing to_add to_del = do
    when (not (is_empty to_del)) (on_conn (attempt (set_delete_elements existing to_del)))
    when (not (is_empty to_add)) (on_conn (attempt (set_add_elements existing to_add)))

  unfoldable pub create_set : NftSet → List SetElement → Render NftSet
  create_set set elements = do
    id ← gets (λ s. lib.new_set_id s.sent set)
    let set' = record set { id = id }
    on_conn (attempt (add_set set elements))
    keep_set (set_key set) set'
    pure set'

  unfoldable pub apply_set : NftSet → List SetElement → Option NftSet → Render NftSet
  unfolding sync_elements create_set process_elements
  apply_set set elements none = create_set set elements
  apply_set set elements (some existing) = do
    existing_elements ← ask (λ t. lib.get_set_elements t existing)
    let (to_add, to_del) = process_elements elements existing_elements
    sync_elements existing to_add to_del
    keep_set (set_key set) existing
    pure set

  -- The result is the caller's set as the call leaves it: its name may have become a hash, and
  -- AddSet gives it an identifier.
  unfoldable pub update_set : NftSet → List SetElement → Render NftSet
  unfolding short_set_name apply_set
  update_set wanted elements = do
    set ← lift (short_set_name wanted)
    existing ← ask (λ t. exists_in (lib.get_set_by_name t set.table set.name))
    apply_set set elements existing
