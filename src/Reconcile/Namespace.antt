-- ===== src/Reconcile/Namespace.antt =====
-- The runtime client and the network namespace of a pod.
