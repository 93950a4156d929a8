-- ===== src/Llm.antt =====
-- internal/llm: what the model is sent.
pub mod History
pub mod Chat
