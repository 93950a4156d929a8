-- ===== src/Pipeline/Realtime/AudioQueue.antt =====
-- internal/pipeline/realtime_audio.go: the agent's audio, cut again into frames. `next` is one pass
-- of the loop of next; that the pass waits for a signal is a result.
pub mod Drain
use streamcore_server.Base.{
  Bool, List, Option, [], drop, false, if◌then◌else◌, is_empty, leb, length, none, replicate, some,
  take, true, ℕ, ◌++◌, ◌-◌,
}
use streamcore_server.Audio.{frame_size}

-- realtimeChunk
pub record Chunk : Type 0 where
  pub frame : Option (List ℕ)
  pub end_of_response : Bool

-- realtimeAudioQueue
pub record Queue : Type 0 where
  pub pending : List ℕ
  pub flush : Bool
  pub closed : Bool

abbrev pub new_queue : Queue
new_queue = record { pending = []; flush = false; closed = false }

unfoldable pub push : Queue → List ℕ → Queue
push q samples = if is_empty samples then q else record q { pending = q.pending ++ samples }

unfoldable pub discard : Queue → Queue
discard q = record q { pending = []; flush = false }

unfoldable pub end_response : Queue → Queue
end_response q = record q { flush = true }

unfoldable pub close : Queue → Queue
close q = record q { closed = true }

pub data Outcome : Type 0 where
  emits : Chunk → Outcome
  stopped waits : Outcome

-- copy into a frame of zeros.
unfoldable pub padded : List ℕ → List ℕ
padded xs = xs ++ replicate (frame_size - length xs) 0

unfoldable pub flush_tail : Queue → Queue × Outcome
unfolding padded
flush_tail q =
    if is_empty q.pending
    then (record q { flush = false }, emits (record { frame = none; end_of_response = true }))
    else (
      record q { flush = false; pending = [] },
      emits (record { frame = some (padded q.pending); end_of_response = true }),
    )

unfoldable pub next : Queue → Queue × Outcome
unfolding flush_tail
next q =
    if q.closed
    then (q, stopped)
    else if leb frame_size (length q.pending)
    then (
      record q { pending = drop frame_size q.pending },
      emits (record { frame = some (take frame_size q.pending); end_of_response = false }),
    )
    else if q.flush
    then flush_tail q
    else (q, waits)
