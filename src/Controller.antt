-- ===== src/Controller.antt =====
-- The HTTP handlers of controller/.
pub mod Data
pub mod Clusters
pub mod Users
pub mod Status
