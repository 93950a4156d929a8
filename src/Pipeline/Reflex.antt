-- ===== src/Pipeline/Reflex.antt =====
-- internal/pipeline/partial.go: the tools that a half-spoken sentence calls.
pub mod Matching
pub mod Staging
pub mod Dedup
