-- ===== src/Signaling/RateLimiter/Window.antt =====
-- What the limiter admits inside one window, over any interleaving of clients.
use streamcore_server.Base.{
  ℕ, ◌+◌, ◌-◌, ◌≤◌, ◌<◌, min, ◌≡◌, refl, true, false, some, List, [], ◌∷◌, Text, lookup, insert,
  Distinct, lookup-insert, lookup-sweep, insert-Distinct, sweep-Distinct, text_eq, text_eq_iff, ltb,
  if◌then◌else◌, arith, Option-cases, inl, inr, lookup-insert_self, Bool-cases, ◌&&◌, tests,
  text_eq_self,
}
use streamcore_server.Signaling.RateLimiter.{
  RateLimiter, RateCount, allow, maybe_gc, client_key, open_window, count_request, allow_key,
}

-- An entry whose window is still open survives the sweep.
maybe_gc-lookup :
    (l : RateLimiter) (k : Text) (c : RateCount) (now : ℕ)
    → Distinct l.counts
    → lookup k l.counts ≡ some c
    → now ≤ c.reset_at
    → lookup k (maybe_gc l now).counts ≡ some c
unfolding maybe_gc
maybe_gc-lookup l k c now d e h =
    ground (arith, lookup-sweep (λ (x : RateCount). ltb x.reset_at now) k l.counts d)

allow_key_self :
    (l : RateLimiter) (k : Text) (now : ℕ) (c : RateCount)
    → lookup k l.counts ≡ some c
    → now ≤ c.reset_at
    → allow_key l k now ≡ count_request l k c now
unfolding allow_key
allow_key_self l k now c e h = ground arith

-- A request of another client leaves an open window alone.
allow_key-other :
    (l : RateLimiter) (j k : Text) (now : ℕ) (c : RateCount)
    → Distinct l.counts
    → text_eq j k ≡ false
    → lookup k l.counts ≡ some c
    → now ≤ c.reset_at
    → lookup k (allow_key l j now).0.counts ≡ some c
unfolding allow_key open_window count_request
allow_key-other l j k now c d ne e h = elim (Option-cases (lookup j l.counts)) [
  | inl f ↦ rw (f, allow_key) (opened (record { count = 1; reset_at = now + l.window }))
  | inr (b, f) ↦ ground (
    arith,
    opened (record { count = 1; reset_at = now + l.window }),
    lookup-insert j k (record b { count = b.count + 1 }) l.counts,
  )
]
  where
    opened :
        (b : RateCount)
        → lookup k (maybe_gc (record l { counts = insert j b l.counts }) now).counts ≡ some c
    opened b =
        maybe_gc-lookup (record l { counts = insert j b l.counts }) k c now
          (insert-Distinct j b l.counts d) (ground (arith, lookup-insert j k b l.counts)) h

maybe_gc-Distinct :
    (l : RateLimiter) (now : ℕ) → Distinct l.counts → Distinct (maybe_gc l now).counts
unfolding maybe_gc
maybe_gc-Distinct l now d =
    ground (arith, sweep-Distinct (λ (x : RateCount). ltb x.reset_at now) l.counts d)

pub allow_key-Distinct :
    (l : RateLimiter) (k : Text) (now : ℕ)
    → Distinct l.counts
    → Distinct (allow_key l k now).0.counts
unfolding allow_key open_window count_request
allow_key-Distinct l k now d = elim (Option-cases (lookup k l.counts)) [
  | inl f ↦ rw (f, allow_key) (opened (record { count = 1; reset_at = now + l.window }))
  | inr (b, f) ↦ ground (
    arith,
    opened (record { count = 1; reset_at = now + l.window }),
    insert-Distinct k (record b { count = b.count + 1 }) l.counts d,
  )
]
  where
    opened :
        (b : RateCount) → Distinct (maybe_gc (record l { counts = insert k b l.counts }) now).counts
    opened b =
        maybe_gc-Distinct (record l { counts = insert k b l.counts }) now
          (insert-Distinct k b l.counts d)

pub allow_key-limit : (l : RateLimiter) (k : Text) (now : ℕ) → (allow_key l k now).0.limit ≡ l.limit
unfolding allow_key maybe_gc
allow_key-limit l k now = ground arith

-- A history of requests: the client and the time of each.
abbrev pub Requests : Type 0
Requests = List (Text × ℕ)

-- The requests of a history that are counted under a key, and those of them that are admitted.
abbrev pub asked : Text → Requests → ℕ
asked k [] = 0
asked k ((client, now) ∷ rs) = (if text_eq (client_key client) k then 1 else 0) + asked k rs

unfoldable pub admitted : RateLimiter → Text → Requests → ℕ
admitted l k [] = 0
admitted l k ((client, now) ∷ rs) =
    (if text_eq (client_key client) k && (allow l client now).1 then 1 else 0)
    + admitted (allow l client now).0 k rs

-- Every request of the history comes before the time.
abbrev pub Before : ℕ → Requests → Type 0
Before t [] = Unit {0}
Before t ((client, now) ∷ rs) = (now ≤ t) × Before t rs

-- One request of the counted client: refused at the limit, else admitted and counted.
allow_key-counts :
    (l : RateLimiter) (k : Text) (now : ℕ) (c : RateCount)
    → lookup k l.counts ≡ some c
    → now ≤ c.reset_at
    → ((allow_key l k now).1 ≡ ltb c.count l.limit)
      × (lookup k (allow_key l k now).0.counts
          ≡ some (record c { count = if ltb c.count l.limit then c.count + 1 else c.count }))
unfolding count_request
allow_key-counts l k now c e h =
    rw (allow_key_self l k now c e h)
      (ground (arith, lookup-insert_self k (record c { count = c.count + 1 }) l.counts))

allow_key-same :
    (l : RateLimiter) (j k : Text) (now : ℕ) (c : RateCount)
    → text_eq j k ≡ true
    → lookup k l.counts ≡ some c
    → now ≤ c.reset_at
    → ((allow_key l j now).1 ≡ ltb c.count l.limit)
      × (lookup k (allow_key l j now).0.counts
          ≡ some (record c { count = if ltb c.count l.limit then c.count + 1 else c.count }))
allow_key-same l j k now c same e h = rw ((text_eq_iff j k).0 same) (allow_key-counts l k now c e h)

-- One request against a budget, in numbers.
budget :
    (n limit : ℕ) (r : ℕ)
    → (if ltb n limit then 1 else 0) + min r (limit - (if ltb n limit then n + 1 else n))
      ≡ min (1 + r) (limit - n)
budget n limit r = ground arith

-- Once a window is open for a client, with one entry to a client in the limiter: of the requests
-- that arrive before it ends, in any order with any requests of other clients, as many of the
-- client's are admitted as the limit leaves it, or all if they are fewer.
pub admitted-window :
    (l : RateLimiter) (k : Text) (c : RateCount) (rs : Requests)
    → Distinct l.counts
    → lookup k l.counts ≡ some c
    → Before c.reset_at rs
    → admitted l k rs ≡ min (asked k rs) (l.limit - c.count)
unfolding admitted allow
admitted-window l k c [] d e b = omega arith
admitted-window l k c ((client, now) ∷ rs) d e (h, b) =
    elim (Bool-cases (text_eq (client_key client) k)) [
      | inl same ↦
          let (ok, found) = allow_key-same l (client_key client) k now c same e h in
          rw same (
            rw ok (
              omega (
                tests,
                budget c.count l.limit (asked k rs),
                admitted-window (allow_key l (client_key client) now).0 k
                    (record c { count = if ltb c.count l.limit then c.count + 1 else c.count }) rs
                    (allow_key-Distinct l (client_key client) now d) found b,
                allow_key-limit l (client_key client) now,
              )))
      | inr other ↦ rw other (
          omega (
            arith,
            admitted-window (allow_key l (client_key client) now).0 k c rs
                (allow_key-Distinct l (client_key client) now d)
                (allow_key-other l (client_key client) k now c d other e h) b,
            allow_key-limit l (client_key client) now,
          ))
    ]

-- The client has no window open at the time.
abbrev pub IsClosed : RateLimiter → Text → ℕ → Type 0
IsClosed l k now = (c : RateCount) → lookup k l.counts ≡ some c → c.reset_at < now

allow_key-opens :
    (l : RateLimiter) (k : Text) (now : ℕ)
    → Distinct l.counts
    → IsClosed l k now
    → ((allow_key l k now).1 ≡ true)
      × (lookup k (allow_key l k now).0.counts
          ≡ some (record { count = 1; reset_at = now + l.window }))
unfolding allow_key open_window
allow_key-opens l k now d closed = elim (Option-cases (lookup k l.counts)) [
  | inl f ↦ rw (f, allow_key) (refl, opened)
  | inr (b, f) ↦ let late = closed b f in ground (arith, opened)
]
  where
    fresh : RateCount
    fresh = record { count = 1; reset_at = now + l.window }

    opened :
        lookup k (maybe_gc (record l { counts = insert k fresh l.counts }) now).counts ≡ some fresh
    opened =
        maybe_gc-lookup (record l { counts = insert k fresh l.counts }) k fresh now
          (insert-Distinct k fresh l.counts d) (lookup-insert_self k fresh l.counts) (omega arith)

-- A client with no open window, whose next request comes at `now`, with one entry to a client in
-- the limiter and a limit of at least 1: of that request and all of the client's that follow
-- within one window length, whatever other clients send, the first `limit` are admitted and no
-- others.
pub admitted-limit :
    (l : RateLimiter) (client : Text) (now : ℕ) (rs : Requests)
    → Distinct l.counts
    → 0 < l.limit
    → IsClosed l (client_key client) now
    → Before (now + l.window) rs
    → admitted l (client_key client) ((client, now) ∷ rs)
      ≡ min (1 + asked (client_key client) rs) l.limit
unfolding admitted allow
admitted-limit l client now rs d pos closed b =
    let k = client_key client in
    let (ok, found) = allow_key-opens l k now d closed in
    rw (text_eq_self k) (
      rw ok (
        omega (
          arith,
          admitted-window (allow_key l k now).0 k (record { count = 1; reset_at = now + l.window })
              rs (allow_key-Distinct l k now d) found b,
          allow_key-limit l k now,
        )))
