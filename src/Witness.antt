-- ===== src/Witness.antt =====
-- Runs of the definitions at concrete inputs, and the theorems at inputs that meet their hypotheses.
mod Wire
mod Config
mod Keys
mod Egress
mod Forward
mod Uplink
mod Downlink
mod Params
mod Link
mod Scan
mod Mode
mod Session
mod Watchdog
mod Startup
