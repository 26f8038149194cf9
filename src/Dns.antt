-- ===== src/Dns.antt =====
-- cmd/yachtsense-link-emulator/dns.go: mDNS names, messages, the cache of learned names and the
-- filter that decides what the relay forwards.
pub mod Types
pub mod Name
pub mod Message
pub mod Cache
pub mod Relevance
pub mod Filter
