-- ===== src/Tts/Limiter/Slots.antt =====
-- internal/tts/limiter.go: who holds the slots, and who is counted.
use streamcore_server.Base.{List, [], ℕ, ◌+◌, ◌∷◌, ◌≡◌, ◌≤◌}
use streamcore_server.Tts.Limiter.{
  Limiter, new_limiter, Phase, Event, on_request, calling, queued, taking, taking_queued, entered,
  giving_up, starting, relaying, returning,
}

-- A request holds a slot, is in the count of the slots in use, is in the count of the queue, has given its slot back and
-- is still counted.
abbrev pub holds : Phase → ℕ
holds taking = 1
holds taking_queued = 1
holds entered = 1
holds starting = 1
holds relaying = 1
holds _ = 0

abbrev pub counts : Phase → ℕ
counts entered = 1
counts starting = 1
counts relaying = 1
counts returning = 1
counts _ = 0

abbrev pub waits : Phase → ℕ
waits queued = 1
waits taking_queued = 1
waits entered = 1
waits giving_up = 1
waits _ = 0

abbrev pub returns : Phase → ℕ
returns returning = 1
returns _ = 0

abbrev pub total : (Phase → ℕ) → List Phase → ℕ
total f [] = 0
total f (p ∷ ps) = f p + total f ps

-- Requests come, and things happen to them.
pub data Reach (limit : ℕ) : List Phase → Limiter → Type 0 where
  idle : Reach limit [] (new_limiter limit)
  arrives : {ps : List Phase} {l : Limiter} → Reach limit ps l → Reach limit (calling ∷ ps) l
  happens :
      {ps : List Phase} {l : Limiter}
      → Reach limit ps l
      → (e : Event) (i : ℕ) → Reach limit (on_request e i ps l).0 (on_request e i ps l).1

-- The counts of a limiter, of which `h`, `u` and `w` are those of other requests.
pub record Counts (limit h u w : ℕ) (ps : List Phase) (l : Limiter) : Type 0 where
  pub same_limit : l.limit ≡ limit
  pub slots : l.held ≡ h + total holds ps
  pub users : l.in_use ≡ u + total counts ps
  pub queue : l.waiting ≡ w + total waits ps
  pub within : l.held ≤ limit
