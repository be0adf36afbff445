-- ===== src/Wire/Acks.antt =====
-- The acks of auth/protocol.go that are read alike.
use uavlink_edge.Wire.Bytes.{Bytes}
