-- ===== src/Signaling/Handler/Limits.antt =====
-- The limiters in front of the handlers.
use streamcore_server.Base.{Text, [], arith, false, ℕ, ◌≡◌, ◌≢◌}
use streamcore_server.Signaling.Http.{Request, Outcomes, post, patch}
use streamcore_server.Signaling.RateLimiter.{allow}
use streamcore_server.Signaling.RateLimiter.Refusal.{allow_refusal, allow_refuses}
use streamcore_server.Signaling.ClientIp.{client_ip}
use streamcore_server.Signaling.Handler.{Server, handle, session_path, RateLimiter}

limited_same :
    (l : RateLimiter) (client : Text) (now : ℕ)
    → (allow l client now).1 ≡ false
    → (allow l client now).0 ≡ l
limited_same l client now e =
    let (c, f, _, _) = (allow_refuses l client now).0 e in (allow_refusal l client now c f e).0

-- A POST of a client that is over its limit gets a 429 and changes nothing at all, whatever it asks;
-- so does a PATCH that names a session, by a limit of its own: neither limiter ever sees the
-- requests of the other kind.
pub handle_limited :
    (s : Server) (o : Outcomes) (r : Request)
    → (r.method ≡ post
        → ((handle s o r).0.restart_limiter ≡ s.restart_limiter)
          × ((allow s.limiter (client_ip r.origin) o.now).1 ≡ false
              → ((handle s o r).1.status ≡ 429) × ((handle s o r).0 ≡ s)))
      × (r.method ≡ patch
          → ((handle s o r).0.limiter ≡ s.limiter)
            × (session_path r.path ≢ []
                → (allow s.restart_limiter (client_ip r.origin) o.now).1 ≡ false
                → ((handle s o r).1.status ≡ 429) × ((handle s o r).0 ≡ s)))
unfolding handle
handle_limited s o r = ground (
  arith,
  limited_same s.limiter (client_ip r.origin) o.now,
  limited_same s.restart_limiter (client_ip r.origin) o.now,
)
