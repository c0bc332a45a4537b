-- ===== src/Tests.antt =====
-- Runs of the model on a platform in memory: tests, and the theorems at concrete inputs.
pub mod Data
pub mod Requests
pub mod Syncing
mod Running
pub mod Events
mod Starting
mod Saving
mod Defaults
pub mod Handlers
pub mod Configured
pub mod Storage
mod Waiting
mod Wired
mod Designed
mod Reflected
