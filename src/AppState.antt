-- ===== src/AppState.antt =====
-- internal/app/app_state.go and internal/store/app_state.go: the ordered persistence queue of
-- WhatsApp app-state events, and the durable recovery intents.
pub mod Sequencer
pub mod Intents
