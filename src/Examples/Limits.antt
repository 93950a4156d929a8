-- ===== src/Examples/Limits.antt =====
-- A limiter of two requests in ten seconds, and the addresses that it counts under.
use streamcore_server.Base.{
  Distinct, Text, [], arith, codes, false, lookup, min, refl, some, text_eq, ◌*◌, ◌+◌, ◌∷◌, ◌≡◌,
}
use streamcore_server.Signaling.RateLimiter.{RateLimiter, RateCount, allow, client_key, second}
use streamcore_server.Signaling.RateLimiter.Window.{
  admitted, asked, admitted-limit, Requests, IsClosed,
}
use streamcore_server.Signaling.RateLimiter.Refusal.{allow_refuses}
use streamcore_server.Signaling.ClientIp.{client_ip, split_host_port}
use streamcore_server.Strings.{trim_space, cut}

abbrev a : Text
a = codes "1.2.3.4"

abbrev b : Text
b = codes "5.6.7.8"

abbrev half : RateCount
half = record { count = 1; reset_at = 10 * second }

abbrev limiter : RateLimiter
limiter = record { limit = 2; window = 10 * second; counts = (a, half) ∷ [] }

abbrev requests : Requests
requests = (b, 1) ∷ (a, 2) ∷ (b, 3) ∷ (a, second) ∷ []

limiter-lookup : (c : RateCount) → lookup (client_key a) ((a, c) ∷ []) ≡ some c
unfolding lookup text_eq
limiter-lookup c = refl

limiter-Distinct : (c : RateCount) → Distinct ((a, c) ∷ [])
unfolding lookup
limiter-Distinct c = (refl, tt)

b_is_new : IsClosed limiter (client_key b) 0
unfolding lookup text_eq
b_is_new c e = ground arith

admitted-limit_example :
    admitted limiter (client_key b) ((b, 0) ∷ requests)
    ≡ min (1 + asked (client_key b) requests) limiter.limit
admitted-limit_example =
    admitted-limit limiter b 0 requests (limiter-Distinct half) (omega arith) b_is_new
      (omega arith, (omega arith, (omega arith, (omega arith, tt))))

-- The same limiter once the window is used up.
abbrev full : RateCount
full = record { count = 2; reset_at = 10 * second }

abbrev used : RateLimiter
used = record { limit = 2; window = 10 * second; counts = (a, full) ∷ [] }

used_up : (allow used a 5).1 ≡ false
used_up = (allow_refuses used a 5).1 (full, limiter-lookup full, omega arith, omega arith)

local_v4 :
    client_ip (record { forwarded_for = []; real_ip = []; remote_addr = codes "10.0.0.7:4242" })
    ≡ codes "10.0.0.7"
unfolding client_ip split_host_port
local_v4 = refl

local_v6 :
    client_ip (record { forwarded_for = []; real_ip = []; remote_addr = codes "[::1]:80" })
    ≡ codes "::1"
unfolding client_ip split_host_port
local_v6 = refl

first_hop :
    client_ip
      (record { forwarded_for = codes " 1.2.3.4 , 5.6.7.8"; real_ip = []; remote_addr = [] })
    ≡ codes "1.2.3.4"
unfolding client_ip trim_space cut
first_hop = refl
