-- ===== src/Lib.antt =====
-- YachtSense Link Emulator: the models of the daemon in cmd/yachtsense-link-emulator.
--
-- The program announces a Raymarine YachtSense Link on a boat's network, learns from mDNS which
-- multifunction display (MFD) is there, relays the discovery between the MFD's network and those of
-- the apps, and is configured and controlled from a router's web interface. Its parts and files:
--   Dns.Name, Dns.Message  dns.go: names and messages on the wire, the announcement (`encodeDNSName`,
--     `decodeName`, `appendRR`, `buildAnnouncement`, `parseDNSMessage`)
--   Dns.Cache  dns.go: `nameCache`, the names learned from the MFD, each with its end
--   Dns.Relevance, Dns.Filter  dns.go: `responseRelevant`, which learns names, and `filterDNS`, which
--     decides what the relay forwards; `determineRelayMode`
--   Config.Words, Config.Text, Config.Uci, Config.Settings  config.go: the words of a UCI line, the
--     tests on texts, the options of the file, `settingsFrom` and `validateSettings`
--   Config.Interfaces  config.go: `interfaceSnapshot` and `resolve`, the choice of the networks
--   Status.Avahi, Status.Engine  status.go: `inspectAvahi`, `chooseEngine`, and the `configuration`
--     that `runDaemon` (daemon.go) builds from the choice
--   Actions.Request, Actions.Worker  actions.go: `requestAction`, which checks and saves a change and
--     queues a worker, and `applyAction`, the worker
--   Engine.Build  daemon.go: `buildEngine`, an endpoint for each network
--   Engine.Observe, Engine.Reply  daemon.go: `observe`, what the engine learns from a message, and
--     `unicastReply`
--   Engine.Loop, Engine.Relay, Engine.Receive  daemon.go: the state of the engine and of its loops, and
--     a round of `readLoop`: its guards, the answer to a query, the relay, `recordApp` and `fail`
--   Engine.Announce  daemon.go: `start` with its goroutine, and `close`
--   Engine.Schedule  daemon.go: all loops and that goroutine, which take turns in any order
--   Daemon.Address  daemon.go: `prepareAddress`, the closure it returns, and the tests on addresses
--   Dashboard  dashboard.go: `dashboardNetworks`, `dashboardAllowed` and `dashboardHandler`
--   Telemetry.PublicIp  telemetry_collect.go, dashboard.go: `usablePublicIPv4` and `refreshPublicIPs`
--   Telemetry.Logs, Telemetry.Devices  telemetry_devices.go: `publicLogs`, and `mergeKnownDevices` with
--     the readers of JSON values of telemetry_sources.go in Telemetry.Json
--   Telemetry.Sections  telemetry_sources.go, telemetry_wan.go: `uciSections` and `defaultPolicy`
-- Common holds the shared names; the modules below a component hold its proofs, and Tests the
-- examples. Fields, constructors and functions have the names of the Go source in another spelling.
--
-- A text is the list of its bytes, a number of w bits a natural number below 2 ^ w with its
-- wrap-around written out, a Go `int` an integer. A call that returns an error is a `Result`; an
-- error's message is a constructor. A map is a list of keys with values, each key once; where the
-- order of a `range` over a map shows, it is a parameter. A mutex makes a call one step, and one
-- reading of the clock serves a packet.
--
-- Fuel. The loop of `decodeName` moves forward in the packet, so the model gives it one round more
-- than the packet has bytes; pointers go at most 12 deep, by an argument of the source itself, and
-- this bounds the recursion. The worker's waits are bounded by their clocks: 7 seconds in steps of 100
-- milliseconds are at most 72 readings, 15 seconds in steps of one second at most 16.
--
-- Interleavings. A round of a loop is one step of the engine as a whole: the tables and the reported
-- state are behind locks, and each loop keeps the rest for itself. A schedule is any sequence of such
-- steps, at any times, whatever the loops read. The source takes a lock for each use of the shared
-- state and not for the whole round, so two rounds can also interleave within.
--
-- Parameters: the lower case of texts beyond ASCII, the text of an IPv6 address, the key that a
-- `range` meets first, the decoder of JSON, the fingerprint of settings, the digest of a packet,
-- whether a send or a command succeeds, the address that a client has, and what the system answers
-- (interfaces, files, processes, clocks). Not modelled: sockets and files, the order of start and stop
-- in `runDaemon`, the state file, the status report, the other views of the telemetry
-- (neighbours, wireless, GPS, VPN, the WAN), the dashboard's pages, the router's packages.
pub mod Common
pub mod Dns
pub mod Config
pub mod Daemon
pub mod Status
pub mod Actions
pub mod Engine
pub mod Telemetry
pub mod Dashboard
pub mod Tests
