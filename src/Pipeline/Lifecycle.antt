-- ===== src/Pipeline/Lifecycle.antt =====
-- internal/pipeline/lifecycle.go, and NextTurn of internal/pipeline/conversation.go: the event that a response is complete. Each atomic
-- operation is a step; a loop of CompareAndSwap is one, since it ends where its last round succeeds or finds a higher
-- generation. The pipeline has a plugin manager and a conversation, and the numbers stay below 2 ^ 64.
pub mod Events
pub mod Once
use streamcore_server.Base.{
  Bool, List, Option, Text, [], false, if◌then◌else◌, is_empty, is_some, leb, not, suc, true, ℕ,
  ◌&&◌, ◌==◌, ◌||◌, ◌∷◌, ◌≡◌,
}
use streamcore_server.Strings.{trim_space}

pub record Event : Type 0 where
  pub generation : ℕ
  pub seq : ℕ
  pub transcript : Text
  pub response : Text

-- What a plugin makes of an event; an empty turn number is 0, and no payload is none.
pub record Output : Type 0 where
  pub kind : Text
  pub turn_seq : ℕ
  pub payload : Option Text

pub record Lifecycle : Type 0 where
  pub emitted_gen : ℕ
  pub response_gen : ℕ
  pub latest_turn : ℕ
  pub turns : ℕ
  -- The generations that were claimed and are on their way.
  pub claimed : List ℕ
  -- The events that were made, those whose goroutine has not started, and those that were handed to the plugins.
  pub events : List Event
  pub launched : List Event
  pub dispatched : List Event
  -- The events whose number is not yet stored as the latest.
  pub storing : List ℕ

unfoldable pub new_lifecycle : Lifecycle
new_lifecycle = record {
  emitted_gen = 0;
  response_gen = 0;
  latest_turn = 0;
  turns = 0;
  claimed = [];
  events = [];
  launched = [];
  dispatched = [];
  storing = [];
}

-- claimLifecycleEvent: the state, and whether this generation is claimed.
unfoldable pub claim_lifecycle_event : ℕ → Lifecycle → Lifecycle × Bool
claim_lifecycle_event gen s =
    if leb gen s.emitted_gen then (s, false) else (record s { emitted_gen = gen }, true)

-- The first test of emitAssistantResponseCompleted.
unfoldable pub claim : ℕ → Lifecycle → Lifecycle
unfolding claim_lifecycle_event
claim gen s =
    if gen == 0
    then s
    else (let (s', won) = claim_lifecycle_event gen s in
        if won then record s' { claimed = gen ∷ s'.claimed } else s')

abbrev pub holds : ℕ → List ℕ → Bool
holds n [] = false
holds n (m ∷ l) = m == n || holds n l

unfoldable pub drop_claim : ℕ → List ℕ → List ℕ
drop_claim gen [] = []
drop_claim gen (g ∷ gs) = if g == gen then gs else g ∷ drop_claim gen gs

abbrev pub new_event : ℕ → Text → Text → Lifecycle → Event
new_event gen transcript response s = record {
  generation = gen;
  seq = suc s.turns;
  transcript = transcript;
  response = response;
}

-- The test that follows a claim, and the event; NextTurn is one atomic addition.
unfoldable pub complete : ℕ → Text → Text → Lifecycle → Lifecycle
unfolding drop_claim
complete gen transcript response s =
    let s' = record s { claimed = drop_claim gen s.claimed } in
    if not (s.response_gen == gen) || is_empty (trim_space response) then s' else record s' {
      turns = suc s.turns;
      events = new_event gen transcript response s ∷ s.events;
      launched = new_event gen transcript response s ∷ s.launched;
      storing = suc s.turns ∷ s.storing;
    }

abbrev pub is_launched : Event → List Event → Bool
is_launched e [] = false
is_launched e (x ∷ xs) = x.seq == e.seq && x.generation == e.generation || is_launched e xs

unfoldable pub drop_launched : ℕ → List Event → List Event
drop_launched gen [] = []
drop_launched gen (e ∷ es) =
    if e.generation == gen then drop_launched gen es else e ∷ drop_launched gen es

-- dispatchPluginEvent up to the plugins; the context is that of the pipeline, with a time limit.
unfoldable pub dispatch_plugin_event : Event → Bool → Lifecycle → Lifecycle
unfolding drop_launched
dispatch_plugin_event e ended s =
    let s' = record s { launched = drop_launched e.generation s.launched } in
    if not (s.response_gen == e.generation) || ended
    then s'
    else record s' { dispatched = e ∷ s.dispatched }

-- An output is sent, when it is come to: the latest turn and the generation are those of that moment.
unfoldable pub sends_output : Event → Output → ℕ → ℕ → Bool
sends_output e o latest gen =
    let seq = if o.turn_seq == 0 then e.seq else o.turn_seq in
    not (is_empty o.kind) && is_some o.payload && leb latest seq && gen == e.generation

pub data Step : Lifecycle → Lifecycle → Type 0 where
  -- A barge-in or a new turn.
  supersedes : (s : Lifecycle) → Step s (record s { response_gen = suc s.response_gen })
  claims : (s : Lifecycle) (gen : ℕ) → Step s (claim gen s)
  completes :
      (s : Lifecycle) (gen : ℕ) (transcript response : Text)
      → holds gen s.claimed ≡ true
      → Step s (complete gen transcript response s)
  dispatches :
      (s : Lifecycle) (e : Event) (ended : Bool)
      → is_launched e s.launched ≡ true
      → Step s (dispatch_plugin_event e ended s)
  stores :
      (s : Lifecycle) (n : ℕ)
      → holds n s.storing ≡ true
      → Step s (record s { latest_turn = n; storing = drop_claim n s.storing })

pub data Reach : Lifecycle → Type 0 where
  start : Reach new_lifecycle
  more : (s s' : Lifecycle) → Reach s → Step s s' → Reach s'
