-- ===== src/Status.antt =====
-- cmd/yachtsense-link-emulator/status.go: what the running Avahi does, and the choice of the engine
-- that discovers between networks.
pub mod Avahi
pub mod Engine
