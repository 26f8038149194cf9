-- ===== src/Engine.antt =====
-- cmd/yachtsense-link-emulator/daemon.go: the engine. What it learns from the messages it reads, its
-- answers, its loops and the relay, what it sends of its own accord, and all of this together.
pub mod Observe
pub mod Reply
pub mod Loop
pub mod Relay
pub mod Receive
pub mod Build
pub mod Announce
pub mod Schedule
