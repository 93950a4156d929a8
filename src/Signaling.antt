-- ===== src/Signaling.antt =====
-- Package internal/signaling: the WHIP endpoint and its rate limiter.
pub mod RateLimiter
pub mod ClientIp
pub mod Http
pub mod Post
pub mod Patch
pub mod Handler
