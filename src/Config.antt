-- ===== src/Config.antt =====
-- cmd/yachtsense-link-emulator/config.go: the UCI configuration, its validation, and the choice of
-- network interfaces.
pub mod Words
pub mod Text
pub mod Uci
pub mod Settings
pub mod Interfaces
