-- ===== src/Hivebus.antt =====
-- crates/hivebus/src/main.rs, the membership daemon: one module for each of its tasks.
pub mod Discovery
pub mod Cluster
pub mod Network
pub mod Unordered
pub mod Members
pub mod Wire
pub mod Listener
pub mod Detector
pub mod History
pub mod Control
pub mod Identity
pub mod Start
