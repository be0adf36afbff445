-- ===== src/Wire/RoundTrips.antt =====
-- Every packet that the drone sends with auth/protocol.go, but the first, which is only a UUID.
use uavlink_edge.Wire.Bytes.{Bytes}
