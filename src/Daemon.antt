-- ===== src/Daemon.antt =====
-- cmd/yachtsense-link-emulator/daemon.go: the parts of the daemon around its engine.
pub mod Address
