-- ===== src/Wire.antt =====
-- The TCP protocol between drone and router (auth/protocol.go).
pub mod Bytes
pub mod Codes
pub mod Cursor
pub mod Requests
pub mod Replies
pub mod KeyReplies
pub mod Formats
pub mod AuthAcks
pub mod SessionAcks
pub mod SetupAcks
pub mod VpnAcks
pub mod Challenges
pub mod KeyAcks
pub mod StatusAcks
pub mod RequestReads
pub mod RegisterReads
pub mod Acks
pub mod RoundTrips
pub mod Safety
