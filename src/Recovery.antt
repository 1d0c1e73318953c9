-- ===== src/Recovery.antt =====
-- Repairing the app state of a collection: internal/app/chat_state.go and
-- internal/app/sync_recovery.go, over the durable intents of AppState/Intents. What whatsmeow, the
-- primary device, the persistence queue and the other goroutines do in a step is the step's answer.
pub mod Tracker
pub mod State
pub mod Steps
pub mod Write
pub mod Ladder
pub mod Admission
pub mod Capture
pub mod LocalWrite
mod Gated
mod Startup
mod Examples
