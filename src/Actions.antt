-- ===== src/Actions.antt =====
-- cmd/yachtsense-link-emulator/actions.go: the requests that change the service, and the worker that
-- applies them.
pub mod Worker
pub mod Request
