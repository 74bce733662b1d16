-- ===== src/Fields/Samples.antt =====
-- Names of interfaces.
use multi_networkpolicy_nfta.Fields.Interfaces.{NonZero, ifname_inj}
use multi_networkpolicy_nfta.Base.{codes, ◌≡◌, refl, arith}

ifname_inj_example : codes "net1" ≡ codes "net1"
ifname_inj_example =
    ifname_inj (codes "net1") (codes "net1") (omega arith) clean (omega arith) clean refl
  where
    clean : NonZero (codes "net1")
    clean = ground arith
