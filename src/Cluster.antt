-- ===== src/Cluster.antt =====
-- The Kubernetes objects that the renderer reads, and the lookups that it makes in the cluster
-- (pkg/controllers: pod.go, deps.go, namespace.go, networkpolicy.go).
mod Objects
pub mod Fake
unfoldable pub use Objects.*
