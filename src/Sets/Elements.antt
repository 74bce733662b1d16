-- ===== src/Sets/Elements.antt =====
-- What processElements answers, by the keys of the elements.
use multi_networkpolicy_nfta.Nft.{SetElement}
use multi_networkpolicy_nfta.Sets.{is_present, find_non_common, process_elements}
use multi_networkpolicy_nfta.Base.{
  any, keep, Bytes, eq_bytes, eq_bytes_iff, ◌≡◌, refl, sym, ap, Bool, true, false, not, ◌&&◌, ◌||◌,
  List, [], ◌∷◌, ◌++◌, arith,
}

-- Some element has the key.
abbrev pub has_element : Bytes → List SetElement → Bool
has_element k els = any (λ e. eq_bytes k e.key) els

-- what is left of a set after a deletion of elements by their keys
abbrev pub without_keys : List SetElement → List SetElement → List SetElement
without_keys del els = keep (λ e. not (has_element e.key del)) els

has_element-cons_same :
    (k : Bytes) (x : SetElement) (b : List SetElement)
    → eq_bytes k x.key ≡ true
    → has_element x.key b ≡ has_element k b
has_element-cons_same k x b h = ap (λ key. has_element key b) (sym ((eq_bytes_iff k x.key).0 h))

has_element-find_non_common :
    (k : Bytes) (a b : List SetElement)
    → has_element k (find_non_common a b) ≡ (has_element k a && not (has_element k b))
unfolding find_non_common is_present
has_element-find_non_common k [] b = refl
has_element-find_non_common k (x ∷ xs) b =
    let same = has_element-cons_same k x b in
    ground (arith, has_element-find_non_common k xs b, same)

has_element-without_keys :
    (k : Bytes) (del els : List SetElement)
    → has_element k (without_keys del els) ≡ (has_element k els && not (has_element k del))
has_element-without_keys k del [] = refl
has_element-without_keys k del (x ∷ xs) =
    let same = has_element-cons_same k x del in
    ground (arith, has_element-without_keys k del xs, same)

has_element-append :
    (k : Bytes) (a b : List SetElement)
    → has_element k (a ++ b) ≡ (has_element k a || has_element k b)
has_element-append k [] b = refl
has_element-append k (x ∷ xs) b = ground (arith, has_element-append k xs b)

-- Deleting what processElements says from the existing elements, and adding what it says, gives
-- a set with exactly the wanted keys.
pub process_elements-keys :
    (new_els existing : List SetElement) (k : Bytes)
    → has_element k (
        without_keys (process_elements new_els existing).1 existing
        ++ (process_elements new_els existing).0)
      ≡ has_element k new_els
unfolding process_elements
process_elements-keys new_els existing k = ground (
  arith,
  has_element-append k (without_keys (find_non_common existing new_els) existing)
      (find_non_common new_els existing),
  has_element-without_keys k (find_non_common existing new_els) existing,
  has_element-find_non_common k existing new_els,
  has_element-find_non_common k new_els existing,
)

-- A key that stands in both lists is neither added nor deleted, whatever the elements under it say:
-- where an interval begins at a key at which the existing set ends one, the end stays.
pub process_elements-common_key :
    (new_els existing : List SetElement) (k : Bytes)
    → has_element k new_els ≡ true
    → has_element k existing ≡ true
    → (has_element k (process_elements new_els existing).0 ≡ false)
      × (has_element k (process_elements new_els existing).1 ≡ false)
unfolding process_elements
process_elements-common_key new_els existing k h h' = ground (
  arith,
  has_element-find_non_common k existing new_els,
  has_element-find_non_common k new_els existing,
)
