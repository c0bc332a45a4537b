-- ===== src/Configuration.antt =====
-- The configuration of clusters, of configuration/.
pub mod Keys
pub mod Decoding
pub mod Environment
pub mod Files
pub mod Getters
pub mod Reflection
pub mod Serving
pub mod Settings
pub mod Viper
pub mod Defaults
