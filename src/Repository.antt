-- ===== src/Repository.antt =====
-- cluster/repository: the repositories of clusters and of links between identities and clusters.
pub mod Normalize
pub mod Clusters
pub mod Identities
pub mod Existence
