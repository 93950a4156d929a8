-- ===== src/Examples/Turns.antt =====
-- A caller who talks over the agent, in ASCII.
use streamcore_server.Base.{
  List, Text, [], arith, codes, false, if◌then◌else◌, is_empty, leb, refl, text_eq, true, ◌&&◌, ◌+◌,
  ◌||◌, ◌↔◌, ◌∷◌, ◌≡◌, ◌≤◌, ◌⊎◌,
}
use streamcore_server.Strings.{
  Unicode, member, fields, trim_space, trim_left, is_space, trim_right_by, join,
}
use streamcore_server.Pipeline.Phrases.{
  is_meaningful, is_strong_command, is_backchannel_only, is_meaningful_barge_in_transcript,
  is_strong_barge_in_command, normalized_transcript_text,
}
use streamcore_server.Pipeline.Inbound
use streamcore_server.Pipeline.Inbound.{Line, Frame, new_line, on_frame, backchannel_window}
use streamcore_server.Pipeline.Inbound.Interrupts.{
  Input, frame, final_text, run_inputs, on_frame_interrupts, step,
}
use streamcore_server.Pipeline.TurnBuffer.{Buffer, Event, new_buffer, turn_merge_max, flush, merge}
use streamcore_server.Pipeline.TurnBuffer
use streamcore_server.Pipeline.TurnBuffer.Bounds.{begin_at, final_at, Held, Reach-Held}

abbrev pub ascii : Unicode
ascii = record {
  lower = λ c. if leb b'A' c && leb c b'Z' then c + 32 else c;
  is_letter = λ c. (leb b'a' c && leb c b'z') || (leb b'A' c && leb c b'Z');
  is_digit = λ c. leb b'0' c && leb c b'9';
}

abbrev voiced : Frame
voiced = record {
  now = 20;
  is_voice = true;
  is_agent_speaking = true;
  emits_partials = false;
  is_guarded = false;
}

abbrev late : Frame
late = record voiced { now = 700_000_000 }

abbrev inputs : List Input
inputs = final_text ∷ frame voiced ∷ []

after : (run_inputs ascii new_line inputs).barge_in_pending ≡ true
unfolding run_inputs step on_frame Inbound.on_final Inbound.open_window Inbound.maybe_start_duck
after = refl

no_interrupt_yet : (run_inputs ascii new_line inputs).interrupt ≡ false
unfolding run_inputs step on_frame Inbound.on_final Inbound.open_window Inbound.maybe_start_duck
no_interrupt_yet = refl

late_interrupts : (on_frame ascii (run_inputs ascii new_line inputs) late).interrupt ≡ true
unfolding run_inputs step on_frame Inbound.on_final Inbound.open_window Inbound.maybe_start_duck
    Inbound.confirm Inbound.send_interrupt
late_interrupts = refl

-- The caller said "wait" and stopped.
abbrev waiting : Line
waiting = record {
  has_partial_text = false;
  latest_partial = codes "wait";
  barge_in_pending = true;
  barge_in_start = 20;
  audio_muted = true;
  interrupt = false;
}

abbrev quiet : Frame
quiet = record voiced { now = 30; is_voice = false }

on_frame_interrupts_example : ((on_frame ascii waiting quiet).interrupt ≡ true) ↔ (
    (waiting.barge_in_pending ≡ true)
    × ((waiting.barge_in_start + backchannel_window ≤ quiet.now)
        ⊎ ((quiet.is_voice ≡ false)
            × (is_meaningful_barge_in_transcript ascii waiting.latest_partial ≡ true)
            × (quiet.is_guarded ≡ true
                → is_strong_barge_in_command ascii waiting.latest_partial ≡ true))))
on_frame_interrupts_example = on_frame_interrupts ascii waiting quiet refl

says_wait : is_meaningful_barge_in_transcript ascii (codes "wait") ≡ true
unfolding is_meaningful_barge_in_transcript is_meaningful fields normalized_transcript_text join
    member text_eq is_space
says_wait = refl

abbrev stop_now : List Text
stop_now = codes "please" ∷ codes "hang" ∷ codes "up" ∷ []

is_strong : is_strong_command stop_now ≡ true
unfolding is_strong_command text_eq
is_strong = refl

abbrev yeah_yeah : List Text
yeah_yeah = codes "yeah" ∷ codes "yeah" ∷ []

is_listening : is_backchannel_only yeah_yeah ≡ true
unfolding is_backchannel_only member fields text_eq is_space
is_listening = refl

abbrev said : Event
said = record {
  text = codes " book a ";
  over_agent_speech = false;
  turn_start = 5;
  merge_wait_ms = 0;
}

abbrev more : Event
more = record {
  text = codes "table.";
  over_agent_speech = true;
  turn_start = 400;
  merge_wait_ms = 0;
}

abbrev held : Buffer
held = (TurnBuffer.on_final ascii true 350 new_buffer said 10).0

Reach-Held_example : Held 500 (TurnBuffer.on_final ascii true 350 held more 500).0
Reach-Held_example =
    Reach-Held ascii true 350
      (final_at (final_at (begin_at 0) said 10 (omega arith)) more 500 (omega arith))

has_words : is_empty (trim_space more.text) ≡ false
unfolding trim_space trim_left trim_right_by is_space
has_words = refl
