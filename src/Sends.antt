-- ===== src/Sends.antt =====
-- Sending: the durable record of sends in progress (internal/store/pending_sends.go), the retry
-- guard in front of the wire (cmd/wacli/delegate_idempotent.go) and the pacing of sends
-- (cmd/wacli/send_spacing.go).
pub mod Pending
pub mod Guard
pub mod Pacer
