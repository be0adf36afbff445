-- ===== src/Session.antt =====
-- The session client of the auth package: auth/client.go, auth/client_apikey.go and the key
-- derivation of auth/hmac.go.
pub mod World
pub mod Calls
pub mod Status
pub mod Handshake
pub mod Refresh
pub mod Recovery
pub mod Keys
pub mod Run
pub mod Setup
pub mod Consistent
pub mod Panics
pub mod Reaches
pub mod Granted
