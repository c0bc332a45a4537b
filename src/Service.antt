-- ===== src/Service.antt =====
-- cluster/service/cluster_service.go: the cluster service.
pub mod Works
pub mod Raising
pub mod Validation
pub mod Clusters
pub mod Links
pub mod Sync
pub mod Watcher
pub mod Catalogue
pub mod Invariant
