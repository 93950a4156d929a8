-- ===== src/Tts.antt =====
-- internal/tts: how many generations run at once.
pub mod Limiter
