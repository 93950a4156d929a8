-- ===== src/Plugin/Host/Restart.antt =====
-- Start, Stop and restart of internal/plugin/external.go, as far as they decide whether a process runs. Times are
-- nanoseconds. What a start comes to is a parameter, and so is when a Stop from outside lands.
pub mod Attempts
use streamcore_server.Base.{Bool, List, [], false, if◌then◌else◌, ltb, suc, true, zero, ℕ, ◌*◌, ◌∷◌}

pub record Host : Type 0 where
  pub stopping : Bool
  -- A process of this plugin is running.
  pub alive : Bool

-- How a start ends: before there is a process, in the handshake, or well.
pub data Outcome : Type 0 where
  failed_early failed_handshake started : Outcome

-- Where a Stop from outside lands in one attempt: before its first test, in its sleep, between its second test
-- and the start's first statement, in the rest of the start, or not at all.
pub data Moment : Type 0 where
  before sleeping between starting never : Moment

abbrev pub restart_attempts : ℕ
restart_attempts = 5

abbrev pub restart_backoff : ℕ
restart_backoff = 1_000_000_000

abbrev pub restart_backoff_ceil : ℕ
restart_backoff_ceil = 30 * 1_000_000_000

unfoldable pub stop : Host → Host
stop h = record { stopping = true; alive = false }

-- A Stop at this moment, if that is when it lands.
unfoldable pub stop_if : Bool → Host → Host
unfolding stop
stop_if b h = if b then stop h else h

abbrev pub is_before : Moment → Bool
is_before before = true
is_before m = false

abbrev pub is_sleeping : Moment → Bool
is_sleeping sleeping = true
is_sleeping m = false

abbrev pub is_between : Moment → Bool
is_between between = true
is_between m = false

abbrev pub is_starting : Moment → Bool
is_starting starting = true
is_starting m = false

-- Start, with a Stop from outside inside it or not: the state, and whether it returns without an error. A start
-- whose handshake fails stops the plugin itself, and a Stop that lands in the handshake makes it fail or finds the
-- process running after it.
unfoldable pub start : Outcome → Bool → Host → Host × Bool
unfolding stop stop_if
start failed_early stopped h = (stop_if stopped (record { stopping = false; alive = false }), false)
start failed_handshake stopped h = (stop (record { stopping = false; alive = true }), false)
start started stopped h = (record { stopping = stopped; alive = true }, true)

unfoldable pub next_backoff : ℕ → ℕ
next_backoff b = if ltb restart_backoff_ceil (b * 2) then restart_backoff_ceil else b * 2

-- What a run of restart did: the state it leaves, how long it slept before each start, and whether it reports that
-- it gave up.
pub record Run : Type 0 where
  pub host : Host
  pub sleeps : List ℕ
  pub gave_up : Bool

abbrev pub ended : Host → Run
ended h = record { host = h; sleeps = []; gave_up = false }

abbrev pub slept : ℕ → Run → Run
slept b r = record r { sleeps = b ∷ r.sleeps }

-- The end of an attempt whose start succeeded.
unfoldable pub settle : Host → Run
unfolding stop
settle h = ended (if h.stopping then stop h else h)

-- An attempt from its start on: `rest` is the loop from the next attempt on.
unfoldable pub after_start : Host × Bool → (Host → Run) → Run
unfolding settle
after_start (h, true) rest = settle h
after_start (h, false) rest = rest h

-- The attempt from its second test on.
unfoldable pub after_sleep : Outcome → Moment → Host → (Host → Run) → Run
unfolding start after_start stop_if
after_sleep r m h rest =
    if h.stopping
    then ended h
    else after_start (start r (is_starting m) (stop_if (is_between m) h)) rest

-- One attempt.
unfoldable pub attempt : Outcome → Moment → ℕ → Host → (Host → Run) → Run
unfolding after_sleep stop_if
attempt r m backoff h rest =
    let h' = stop_if (is_before m) h in
    if h'.stopping
    then ended h'
    else slept backoff (after_sleep r m (stop_if (is_sleeping m) h') rest)

module _ (outcome : ℕ → Outcome) (moment : ℕ → Moment) where
  -- The loop, with the attempts that are left, the number of this one, and the backoff.
  unfoldable pub restart_from : ℕ → ℕ → ℕ → Host → Run
  unfolding attempt next_backoff
  restart_from zero i backoff h = record { host = h; sleeps = []; gave_up = true }
  restart_from (suc n) i backoff h =
      attempt (outcome i) (moment i) backoff h (restart_from n (suc i) (next_backoff backoff))

  unfoldable pub restart : Host → Run
  unfolding restart_from
  restart h = restart_from restart_attempts 1 restart_backoff h
