-- ===== src/Link.antt =====
-- The arbiter of the three PX4 links (forwarder/px4_link.go).
pub mod Step
pub mod Phase
pub mod Arbiter
pub mod Scan
pub mod Setup
