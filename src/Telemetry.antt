-- ===== src/Telemetry.antt =====
-- cmd/yachtsense-link-emulator/telemetry_*.go: what the dashboard is told about the router, the parts
-- that compute it from texts that the router gives.
pub mod Logs
pub mod PublicIp
pub mod Sections
pub mod Json
pub mod Devices
