-- ===== src/Pipeline/Realtime.antt =====
-- The realtime mode of internal/pipeline: the provider hears and speaks, the server relays.
pub mod UserTurn
pub mod AudioQueue
