-- ===== src/Pipeline.antt =====
-- Package internal/pipeline: who has the floor in a call.
pub mod Phrases
pub mod Inbound
pub mod TurnBuffer
pub mod Realtime
pub mod Reflex
pub mod ToolGate
pub mod Lifecycle
pub mod Agent
