-- ===== src/Dns/Message.antt =====
-- DNS messages on the wire: `appendUint16`, `appendUint32`, `appendRR`, `appendResourceRecord`,
-- `buildTXTData`, `buildAnnouncement` and `parseDNSMessage`.
pub mod Parse
pub mod Build
pub mod Records
pub mod Content
