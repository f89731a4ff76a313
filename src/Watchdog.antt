-- ===== src/Watchdog.antt =====
-- services/watchdog: the monitors, their edge-triggered dedupe and the alert sink.
pub mod Probes
pub mod Dedupe
pub mod Alerts
pub mod Chassis
pub mod Chamber
pub mod Fleet
pub mod Session
