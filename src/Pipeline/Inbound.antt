-- ===== src/Pipeline/Inbound.antt =====
-- internal/pipeline/inbound.go and duck.go: the barge-in state machine of runInbound. One frame of
-- audio or one transcript is one step. The voice detector is an input: what it says after each
-- frame, which Reset makes it forget. The text predicates come from Pipeline/Phrases.
pub mod Interrupts
use streamcore_server.Base.{
  Bool, Text, [], false, if◌then◌else◌, leb, not, true, ℕ, ◌&&◌, ◌+◌, ◌||◌,
}
use streamcore_server.Strings.{Unicode, to_lower, trim_space}
use streamcore_server.Pipeline.Phrases.{
  is_meaningful_barge_in_transcript, is_strong_barge_in_command, byte_length,
}

-- The variables of runInbound, the flag of the duck, and interruptCh, which holds one signal.
pub record Line : Type 0 where
  pub has_partial_text : Bool
  pub latest_partial : Text
  pub barge_in_pending : Bool
  pub barge_in_start : ℕ
  pub audio_muted : Bool
  pub interrupt : Bool

abbrev pub new_line : Line
new_line = record {
  has_partial_text = false;
  latest_partial = [];
  barge_in_pending = false;
  barge_in_start = 0;
  audio_muted = false;
  interrupt = false;
}

-- What is there with a frame: the time, the detector after it, whether the agent speaks, whether
-- the provider sends partials, whether the guard is on and a readback runs.
pub record Frame : Type 0 where
  pub now : ℕ
  pub is_voice : Bool
  pub is_agent_speaking : Bool
  pub emits_partials : Bool
  pub is_guarded : Bool

-- 600 ms.
abbrev pub backchannel_window : ℕ
backchannel_window = 600_000_000

unfoldable pub maybe_start_duck : Bool → Line → Line
maybe_start_duck is_agent_speaking l =
    if is_agent_speaking then record l { audio_muted = true } else l

unfoldable pub maybe_restore_duck : Line → Line
maybe_restore_duck l = record l { audio_muted = false }

-- The non-blocking send.
unfoldable pub send_interrupt : Line → Line
send_interrupt l = record l { interrupt = true }

-- The speech went on past the window.
unfoldable pub confirm : Line → Line
unfolding maybe_restore_duck send_interrupt
confirm l = send_interrupt (maybe_restore_duck (record l { barge_in_pending = false }))

unfoldable pub suppress : Line → Line
unfolding maybe_restore_duck
suppress l = maybe_restore_duck (record l { barge_in_pending = false; has_partial_text = false })

unfoldable pub fire : Line → Line
unfolding send_interrupt
fire l = send_interrupt (record l { barge_in_pending = false })

unfoldable pub open_window : Line → Frame → Line
unfolding maybe_start_duck
open_window l f =
    maybe_start_duck f.is_agent_speaking
      (record l { barge_in_pending = true; barge_in_start = f.now; has_partial_text = false })

-- The callback's state changes for a final, and for a partial.
unfoldable pub on_final : Line → Line
on_final l = record l { has_partial_text = false; latest_partial = [] }

-- The signal is taken by the agent.
unfoldable pub take_interrupt : Line → Line
take_interrupt l = record l { interrupt = false }

module _ (u : Unicode) where
  unfoldable pub on_partial : Line → Text → Line
  on_partial l text =
      let trimmed = to_lower u (trim_space text) in
      record l {
        latest_partial = trimmed;
        has_partial_text = if leb 2 (byte_length trimmed) then true else l.has_partial_text;
      }

  -- The speech ended within the window.
  unfoldable pub classify : Line → Frame → Line
  unfolding fire suppress
  classify l f =
      if not (is_meaningful_barge_in_transcript u l.latest_partial)
      then suppress l
      else if f.is_guarded && not (is_strong_barge_in_command u l.latest_partial)
      then suppress l
      else fire l

  -- One frame, with barge-in switched on.
  unfoldable pub on_frame : Line → Frame → Line
  unfolding confirm open_window classify
  on_frame l f =
      if l.barge_in_pending
      then (if leb (l.barge_in_start + backchannel_window) f.now
          then confirm l
          else if not f.is_voice
          then classify l f
          else l)
      else if f.is_voice && f.is_agent_speaking && (not f.emits_partials || l.has_partial_text)
      then open_window l f
      else l
