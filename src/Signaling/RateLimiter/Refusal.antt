-- ===== src/Signaling/RateLimiter/Refusal.antt =====
-- When the limiter refuses, and what its advice to retry is worth.
use streamcore_server.Base.{
  Option-cases, Text, arith, false, inl, inr, lookup, max, refl, some, true, ℕ, ◌*◌, ◌+◌, ◌-◌, ◌<◌,
  ◌↔◌, ◌≡◌, ◌≤◌,
}
use streamcore_server.Signaling.RateLimiter.{
  RateLimiter, allow, allow_key, open_window, count_request, RateCount, client_key, second,
  retry_after,
}

-- What a refusal is, at a key.
abbrev pub UsedUp : RateLimiter → Text → ℕ → Type 0
UsedUp l k now =
    (c : RateCount) × (lookup k l.counts ≡ some c) × (now ≤ c.reset_at) × (l.limit ≤ c.count)

allow_key-UsedUp :
    (l : RateLimiter) (k : Text) (now : ℕ) → (allow_key l k now).1 ≡ false → UsedUp l k now
unfolding allow_key open_window count_request
allow_key-UsedUp l k now r = elim (Option-cases (lookup k l.counts)) [
  | inl f ↦ ground arith
  | inr (b, f) ↦ (b, f, ground arith, ground arith)
]

allow_key_used_up :
    (l : RateLimiter) (k : Text) (now : ℕ) (c : RateCount)
    → lookup k l.counts ≡ some c
    → now ≤ c.reset_at
    → l.limit ≤ c.count
    → allow_key l k now ≡ (l, false, retry_after c now)
unfolding allow_key count_request
allow_key_used_up l k now c f h full = ground arith

refused-full :
    (l : RateLimiter) (k : Text) (now : ℕ) (c : RateCount)
    → lookup k l.counts ≡ some c
    → (allow_key l k now).1 ≡ false
    → (now ≤ c.reset_at) × (l.limit ≤ c.count)
unfolding allow_key open_window count_request
refused-full l k now c e r = ground arith

-- A client is refused exactly if its window is still open and the limit is used up in it.
pub allow_refuses :
    (l : RateLimiter) (client : Text) (now : ℕ)
    → ((allow l client now).1 ≡ false) ↔ (
        (c : RateCount) × (lookup (client_key client) l.counts ≡ some c)
        × (now ≤ c.reset_at)
        × (l.limit ≤ c.count))
unfolding allow
allow_refuses l client now = (
  allow_key-UsedUp l (client_key client) now,
  λ u. rw (allow_key_used_up l (client_key client) now u.0 u.1 u.2 u.3),
)

retry_after_bounds :
    (c : RateCount) (now : ℕ)
    → (1 ≤ retry_after c now) × (retry_after c now * second ≤ max second (c.reset_at - now))
unfolding retry_after
retry_after_bounds c now = ground arith

allow_key_late :
    (l : RateLimiter) (k : Text) (c : RateCount) (later : ℕ)
    → lookup k l.counts ≡ some c
    → c.reset_at < later
    → (allow_key l k later).1 ≡ true
unfolding allow_key open_window
allow_key_late l k c later f h = ground arith

-- A refusal changes nothing, tells the client to wait at least a second and no longer than the
-- window has left (or one second, if less is left), and ends with the window: any later request
-- of the client is admitted.
pub allow_refusal :
    (l : RateLimiter) (client : Text) (now : ℕ) (c : RateCount)
    → lookup (client_key client) l.counts ≡ some c
    → (allow l client now).1 ≡ false
    → ((allow l client now).0 ≡ l)
      × (1 ≤ (allow l client now).2)
      × ((allow l client now).2 * second ≤ max second (c.reset_at - now))
      × ((later : ℕ) → c.reset_at < later → (allow l client later).1 ≡ true)
unfolding allow
allow_refusal l client now c e r =
    let k = client_key client in
    let (h, full) = refused-full l k now c e r in
    let (one, most) = retry_after_bounds c now in
    rw (allow_key_used_up l k now c e h full)
      (refl, one, most, λ later late. allow_key_late l k c later e late)

-- Waiting exactly the advised number of seconds is never enough while a second or more is left:
-- the same client is refused again at the advised time.
pub retry_early :
    (l : RateLimiter) (client : Text) (now : ℕ) (c : RateCount)
    → lookup (client_key client) l.counts ≡ some c
    → (allow l client now).1 ≡ false
    → now + second ≤ c.reset_at
    → (allow l client (now + (allow l client now).2 * second)).1 ≡ false
unfolding allow
retry_early l client now c e r h =
    let k = client_key client in
    let (before, full) = refused-full l k now c e r in
    let (_, most) = retry_after_bounds c now in
    rw (allow_key_used_up l k now c e before full)
      (rw (allow_key_used_up l k (now + retry_after c now * second) c e (omega arith) full))
