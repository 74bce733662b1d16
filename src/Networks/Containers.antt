-- ===== src/Networks/Containers.antt =====
-- Which container names the sandbox of a pod.
use multi_networkpolicy_nfta.Networks.Netns.{running_id, select_container_id}
use multi_networkpolicy_nfta.Cluster.{ContainerStatus}
use multi_networkpolicy_nfta.Base.{
  Bool-cases, Option-cases, is_empty, Any, Bytes, ◌≡◌, inl, inr, true, false, not, ◌&&◌, none, some,
  List, [], ◌∷◌, arith,
}

abbrev pub HasId : ContainerStatus → Type 0
HasId s = is_empty s.container_id ≡ false

running_id_sound :
    (statuses : List ContainerStatus) (id : Bytes)
    → running_id statuses ≡ some id
    → Any (λ s. (s.running ≡ true) × (s.container_id ≡ id) × HasId s) statuses
unfolding running_id
running_id_sound [] id h = cc
running_id_sound (s ∷ rest) id h = elim (Bool-cases (not (is_empty s.container_id) && s.running)) [
  | inl t ↦ inl (ground arith)
  | inr t ↦ inr (running_id_sound rest id (ground arith))
]

running_id_complete :
    (statuses : List ContainerStatus)
    → running_id statuses ≡ none
    → Any (λ s. (s.running ≡ true) × HasId s) statuses
    → ⊥
unfolding running_id
running_id_complete [] h a = a
running_id_complete (s ∷ rest) h (inl a) = ground arith
running_id_complete (s ∷ rest) h (inr a) = running_id_complete rest (ground arith) a

-- Where some container runs and has an identifier, the container that is chosen is one that runs, with
-- its identifier.
select_container_id-running :
    (statuses : List ContainerStatus)
    → Any (λ s. (s.running ≡ true) × HasId s) statuses
    → Any
        (λ s. (s.running ≡ true) × (s.container_id ≡ select_container_id statuses) × HasId s)
        statuses
unfolding select_container_id
select_container_id-running statuses h = elim (Option-cases (running_id statuses)) [
  | inl e ↦ absurd (running_id_complete statuses e h)
  | inr (id, e) ↦ rw (e, select_container_id) (running_id_sound statuses id e)
]
