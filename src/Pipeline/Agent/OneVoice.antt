-- ===== src/Pipeline/Agent/OneVoice.antt =====
-- internal/pipeline/agent.go: which responses run, and what a stale one still does.
use streamcore_server.Base.{
  Bool, List, Option, [], arith, false, none, refl, some, true, ℕ, ◌&&◌, ◌++◌, ◌<◌, ◌==◌, ◌||◌, ◌∷◌,
  ◌≡◌,
}
use streamcore_server.Pipeline.Lifecycle.{holds}
use streamcore_server.Pipeline.Agent.{
  Phase, idle, bumped, cancelled, drained, Voice, set_speaking, supersede_step, release,
  finish_response, emit_frame,
}

abbrev is_bumped : Phase → Bool
is_bumped idle = false
is_bumped bumped = true
is_bumped cancelled = false
is_bumped drained = false

abbrev is_owner : ℕ → Option ℕ → Bool
is_owner g none = false
is_owner g (some h) = h == g

-- Every running response is cancelled, or the one that would be cancelled next.
abbrev all_held : Option ℕ → List ℕ → List ℕ → Bool
all_held o stopped [] = true
all_held o stopped (g ∷ gs) = (holds g stopped || is_owner g o) && all_held o stopped gs

-- The owner is the one whose generation was noted, and it is current unless it is being superseded.
abbrev owner_ok : Option ℕ → ℕ → ℕ → Bool → Bool
owner_ok none noted gen late = true
owner_ok (some g) noted gen late = g == noted && (late || g == gen)

record Kept (s : Voice) : Type 0 where
  held : all_held s.response_cancel s.stopped s.running ≡ true
  owner : owner_ok s.response_cancel s.response_cancel_gen s.response_gen (is_bumped s.phase) ≡ true

-- A response that is superseded before its first frame, and whose select still takes the queue, raises the speaking flag
-- and leaves its frame in the queue; and it finishes without lowering the flag.
pub stale_frame_speaks :
    (s : Voice) (g : ℕ)
    → s.phase ≡ drained
    → holds g s.announced ≡ false
    → g < s.response_gen
    → let s' = emit_frame g (supersede_step s) in
      (s'.out ≡ s.out ++ (g ∷ [])) × (s'.speaking ≡ true) × ((finish_response g s').speaking ≡ true)
unfolding supersede_step set_speaking emit_frame finish_response release
stale_frame_speaks s g p n l = rw (supersede_step, p) (rw n (refl, refl, ground (arith, l)))
