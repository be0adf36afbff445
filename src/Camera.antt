-- ===== src/Camera.antt =====
-- The camera of camera/.
pub mod Watchdog
