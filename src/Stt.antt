-- ===== src/Stt.antt =====
-- internal/stt: what is made of the transcripts that the providers send.
pub mod Transcript
