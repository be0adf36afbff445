-- ===== src/Forward.antt =====
-- The forwarder package: forwarder/forwarder.go.
pub mod History
pub mod Stats
pub mod Uplink
pub mod Nodes
pub mod Monitor
pub mod Downlink
pub mod Keepalive
