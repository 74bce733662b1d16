-- ===== src/Networks/Samples.antt =====
-- Two containers, of which the second runs.
use multi_networkpolicy_nfta.Cluster.{ContainerStatus}
use multi_networkpolicy_nfta.Base.{codes, true, false}

abbrev waiting : ContainerStatus
waiting = record { name = codes "init"; container_id = codes "cri-o://1"; running = false }

abbrev at_work : ContainerStatus
at_work = record { name = codes "app"; container_id = codes "cri-o://2"; running = true }
