-- ===== src/Web.antt =====
-- The web package: the parameters of web/server.go.
pub mod Params
