-- ===== src/Signaling/RateLimiter.antt =====
-- internal/signaling/rate_limiter.go: the fixed-window limiter. Times and durations are
-- nanoseconds; the current time is an argument of each call. The mutex makes each call one step.
pub mod Window
pub mod Refusal
use streamcore_server.Base.{
  ℕ, ◌+◌, ◌-◌, ◌*◌, ◌/◌, ◌≡◌, Bool, true, false, Option, none, some, List, [], ◌∷◌, Text, codes,
  Map, lookup, insert, sweep, size, ltb, leb, ◌==◌, if◌then◌else◌, is_empty,
}

pub record RateCount : Type 0 where
  pub count : ℕ
  pub reset_at : ℕ

pub record RateLimiter : Type 0 where
  pub limit : ℕ
  pub window : ℕ
  pub counts : Map RateCount

abbrev pub second : ℕ
second = 1_000_000_000

abbrev pub default_widget_rate_limit : ℕ
default_widget_rate_limit = 120

abbrev pub default_widget_rate_window : ℕ
default_widget_rate_window = 60 * second

abbrev pub rate_limiter_gc_threshold : ℕ
rate_limiter_gc_threshold = 8192

-- A limit or window that is not positive is 0 here.
unfoldable pub new_widget_rate_limiter : ℕ → ℕ → RateLimiter
new_widget_rate_limiter limit window = record {
  limit = if limit == 0 then default_widget_rate_limit else limit;
  window = if window == 0 then default_widget_rate_window else window;
  counts = [];
}

unfoldable pub maybe_gc : RateLimiter → ℕ → RateLimiter
maybe_gc l now =
    if ltb (size l.counts) rate_limiter_gc_threshold
    then l
    else record l { counts = sweep (λ c. ltb c.reset_at now) l.counts }

-- The key under which a client is counted.
abbrev pub client_key : Text → Text
client_key client = if is_empty client then codes "_unknown" else client

open_window : RateLimiter → Text → ℕ → RateLimiter × Bool × ℕ
unfolding maybe_gc
open_window l k now =
    let c : RateCount = record { count = 1; reset_at = now + l.window } in
    (maybe_gc (record l { counts = insert k c l.counts }) now, true, 0)

retry_after : RateCount → ℕ → ℕ
retry_after c now = let s = (c.reset_at - now) / second in if ltb s 1 then 1 else s

count_request : RateLimiter → Text → RateCount → ℕ → RateLimiter × Bool × ℕ
unfolding retry_after
count_request l k c now =
    if leb l.limit c.count
    then (l, false, retry_after c now)
    else (record l { counts = insert k (record c { count = c.count + 1 }) l.counts }, true, 0)

unfoldable pub allow_key : RateLimiter → Text → ℕ → RateLimiter × Bool × ℕ
unfolding open_window count_request
allow_key l k now = elim (lookup k l.counts) [
  | none ↦ open_window l k now
  | some c ↦ if ltb c.reset_at now then open_window l k now else count_request l k c now
]

-- The new state, whether the request may proceed, and the seconds to wait if not.
unfoldable pub allow : RateLimiter → Text → ℕ → RateLimiter × Bool × ℕ
allow l client now = allow_key l (client_key client) now
