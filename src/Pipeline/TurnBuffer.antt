-- ===== src/Pipeline/TurnBuffer.antt =====
-- internal/pipeline/turnbuffer.go: finals are held for a short time and merged into whole turns. A
-- final or the end of the timer is one step; times are nanoseconds.
pub mod Bounds
use streamcore_server.Base.{
  Bool, Option, Text, false, if◌then◌else◌, is_empty, ltb, none, not, some, ℕ, ◌&&◌, ◌*◌, ◌++◌, ◌+◌,
  ◌-◌, ◌/◌, ◌==◌, ◌||◌, ◌∷◌,
}
use streamcore_server.Strings.{Unicode, trim_space}
use streamcore_server.Pipeline.Phrases.{ends_terminal, ends_incomplete, ends_dictation}

-- TranscriptEvent, of a final.
pub record Event : Type 0 where
  pub text : Text
  pub over_agent_speech : Bool
  pub turn_start : ℕ
  pub merge_wait_ms : ℕ

pub record Buffer : Type 0 where
  pub pending : Option Event
  -- When the timer ends, if it is armed.
  pub deadline : Option ℕ
  pub turn_began : ℕ
  pub prefetched : Bool

abbrev pub new_buffer : Buffer
new_buffer = record { pending = none; deadline = none; turn_began = 0; prefetched = false }

abbrev pub ms : ℕ
ms = 1_000_000

abbrev pub turn_merge_max : ℕ
turn_merge_max = 2500 * ms

abbrev pub turn_merge_incomplete : ℕ
turn_merge_incomplete = 900 * ms

-- The configured window; one that is not positive is 0 here.
unfoldable pub base_wait : ℕ → ℕ
base_wait turn_merge_ms = if turn_merge_ms == 0 then 350 * ms else turn_merge_ms * ms

-- What is sent to transcriptCh, if there is a turn to send.
unfoldable pub flush : Buffer → ℕ → Buffer × Option Event
flush b now = elim b.pending [
  | none ↦ (b, none)
  | some e ↦ (
    record b { pending = none; prefetched = false; deadline = none },
    some (record e { merge_wait_ms = (now - b.turn_began) / ms }),
  )
]

-- A final joins the turn.
unfoldable pub merge : Buffer → Event → Text → ℕ → Buffer × Event
merge b e text now = elim b.pending [
  | none ↦ let m = record e { text = text } in (record b { pending = some m; turn_began = now }, m)
  | some p ↦
      let m = record p {
        text = trim_space (p.text ++ (b' ' ∷ text));
        over_agent_speech = p.over_agent_speech || e.over_agent_speech;
      } in
      (record b { pending = some m }, m)
]

module _ (u : Unicode) where
  unfoldable pub merge_wait : Text → ℕ → ℕ
  merge_wait text base =
      if ends_terminal text
      then base
      else if ends_incomplete u text || ends_dictation u text
      then turn_merge_incomplete
      else base

  -- The timer is armed, and retrieval is started once for the turn, if it is switched on.
  unfoldable pub arm : Bool → Buffer → Event → ℕ → Buffer × Option Event × Option Text
  arm prefetch b m until = (
    record b { deadline = some until; prefetched = b.prefetched || prefetch },
    none,
    if not b.prefetched && prefetch then some m.text else none,
  )

  -- How long the turn is held from `now` on; `none` if its time is used up.
  unfoldable pub hold : Buffer → Event → ℕ → ℕ → Option ℕ
  unfolding merge_wait
  hold b m base now =
      let wait = merge_wait m.text base in
      let elapsed = now - b.turn_began in
      if ltb turn_merge_max (elapsed + wait)
      then (if ltb 0 (turn_merge_max - elapsed) then some (turn_merge_max - elapsed) else none)
      else some wait

  -- A final: the new buffer, the turn that goes out, and the text that retrieval is started for.
  unfoldable pub on_final : Bool → ℕ → Buffer → Event → ℕ → Buffer × Option Event × Option Text
  unfolding hold merge flush arm
  on_final prefetch base b e now =
      let text = trim_space e.text in
      let (b', m) = merge b e text now in
      if is_empty text then (b, none, none) else (elim (hold b' m base now) [
        | none ↦ (let (q, out) = flush b' now in (q, out, none))
        | some wait ↦ arm prefetch b' m (now + wait)
      ])
