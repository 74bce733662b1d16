-- ===== src/Events/Samples.antt =====
-- The labels of a pod, in two orders.
use multi_networkpolicy_nfta.Events.{label_at, labels_changed}
use multi_networkpolicy_nfta.Events.Changes.{labels_changed_iff}
use multi_networkpolicy_nfta.Cluster.{Labels}
use multi_networkpolicy_nfta.Base.{Bytes, codes, ◌≡◌, refl, ◌↔◌, false, [], ◌∷◌}

abbrev app_first : Labels
app_first = (codes "app", codes "web") ∷ (codes "tier", codes "front") ∷ []

abbrev tier_first : Labels
tier_first = (codes "tier", codes "front") ∷ (codes "app", codes "web") ∷ []

labels_changed_iff_example :
    (labels_changed app_first tier_first ≡ false)
    ↔ ((key : Bytes) → label_at key app_first ≡ label_at key tier_first)
labels_changed_iff_example =
    labels_changed_iff app_first tier_first (refl, (refl, tt)) (refl, (refl, tt))
