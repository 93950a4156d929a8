-- ===== src/Pipeline/Agent.antt =====
-- internal/pipeline/agent.go: which response owns the agent's voice. A response is its generation, which is registered once: the
-- greeting's is the one that is current when it starts, and it is taken to start before the first turn. Each section under responseMu, and each atomic operation, is one step, so that
-- supersedeResponse is four. The queue of frames holds the generation that made each.
pub mod OneVoice
use streamcore_server.Base.{
  Bool, List, Option, [], drop, false, if◌then◌else◌, none, not, some, suc, true, ℕ, ◌++◌, ◌==◌,
  ◌∷◌, ◌≡◌,
}
use streamcore_server.Pipeline.Lifecycle.{holds}

-- How far the agent's goroutine is in supersedeResponse.
pub data Phase : Type 0 where
  idle bumped cancelled drained : Phase

pub record Voice : Type 0 where
  pub response_gen : ℕ
  -- The response that responseCancel cancels.
  pub response_cancel : Option ℕ
  pub response_cancel_gen : ℕ
  -- The responses that were registered and have not finished, those whose context is cancelled, and all that registered.
  pub running : List ℕ
  pub stopped : List ℕ
  pub registered : List ℕ
  -- outPCMCh, and the responses that have sent "speaking".
  pub out : List ℕ
  pub announced : List ℕ
  pub speaking : Bool
  pub phase : Phase

unfoldable pub new_voice : Voice
new_voice = record {
  response_gen = 0;
  response_cancel = none;
  response_cancel_gen = 0;
  running = [];
  stopped = [];
  registered = [];
  out = [];
  announced = [];
  speaking = false;
  phase = idle;
}

abbrev pub stop_owner : Option ℕ → List ℕ → List ℕ
stop_owner none l = l
stop_owner (some g) l = g ∷ l

unfoldable pub cancel_response : Voice → Voice
cancel_response s = record s {
  response_cancel = none;
  stopped = stop_owner s.response_cancel s.stopped;
}

unfoldable pub drain_outbound : Voice → Voice
drain_outbound s = record s { out = [] }

unfoldable pub set_speaking : Bool → Voice → Voice
set_speaking b s = record s { speaking = b }

-- The four steps of supersedeResponse.
unfoldable pub supersede_step : Voice → Voice
unfolding cancel_response drain_outbound set_speaking
supersede_step s = elim s.phase [
  | idle ↦ record s { response_gen = suc s.response_gen; phase = bumped }
  | bumped ↦ record (cancel_response s) { phase = cancelled }
  | cancelled ↦ record (drain_outbound s) { phase = drained }
  | drained ↦ record (set_speaking false s) { phase = idle }
]

-- registerResponse; a response that is refused cancels its own context.
unfoldable pub register_response : ℕ → Voice → Voice
unfolding cancel_response
register_response g s =
    let s' = record s { registered = g ∷ s.registered } in
    if not (s.response_gen == g)
    then record s' { stopped = g ∷ s.stopped }
    else record (cancel_response s') {
      response_cancel = some g;
      response_cancel_gen = g;
      running = g ∷ s.running;
    }

unfoldable pub drop_response : ℕ → List ℕ → List ℕ
drop_response g [] = []
drop_response g (x ∷ xs) = if x == g then drop_response g xs else x ∷ drop_response g xs

-- finishResponse up to the end of its section; the flag says that the response is stale.
unfoldable pub release : ℕ → Voice → Voice × Bool
unfolding drop_response
release g s = (
  record s {
    response_cancel = if s.response_cancel_gen == g then none else s.response_cancel;
    running = drop_response g s.running;
  },
  not (s.response_gen == g),
)

-- finishResponse up to the wait for the queue, with nothing between.
unfoldable pub finish_response : ℕ → Voice → Voice
unfolding release set_speaking
finish_response g s = let (s', stale) = release g s in if stale then s' else set_speaking false s'

-- emitFrame, when its select takes the queue.
unfoldable pub emit_frame : ℕ → Voice → Voice
unfolding set_speaking
emit_frame g s =
    let s' = record s { out = s.out ++ (g ∷ []) } in
    if holds g s.announced
    then s'
    else set_speaking true (record s' { announced = g ∷ s.announced })

pub data Step : Voice → Voice → Type 0 where
  supersedes : (s : Voice) → Step s (supersede_step s)
  registers : (s : Voice) (g : ℕ) → holds g s.registered ≡ false → Step s (register_response g s)
  releases : (s : Voice) (g : ℕ) → holds g s.running ≡ true → Step s (release g s).0
  -- A response that was not stale when it was released.
  hushes : (s : Voice) → Step s (set_speaking false s)
  emits : (s : Voice) (g : ℕ) → holds g s.running ≡ true → Step s (emit_frame g s)
  -- The sender takes a frame.
  sends : (s : Voice) → Step s (record s { out = drop 1 s.out })

pub data Reach : Voice → Type 0 where
  start : Reach new_voice
  more : (s s' : Voice) → Reach s → Step s s' → Reach s'
