-- ===== src/Pipeline/Inbound/Interrupts.antt =====
-- When the agent is interrupted, and when its voice is lowered, over any course of a call.
use streamcore_server.Base.{
  List, Text, [], ap, arith, false, inl, inr, refl, true, ◌+◌, ◌<◌, ◌↔◌, ◌∙◌, ◌∷◌, ◌≡◌, ◌≢◌, ◌≤◌,
  ◌⊎◌,
}
use streamcore_server.Strings.{Unicode, fields, join}
use streamcore_server.Pipeline.Phrases.{is_meaningful, normalized_transcript_text}
use streamcore_server.Pipeline.Phrases.{
  is_meaningful_barge_in_transcript, is_strong_barge_in_command, is_meaningful,
  normalized_transcript_text,
}
use streamcore_server.Pipeline.Inbound.{
  Line, Frame, new_line, on_frame, on_final, on_partial, take_interrupt, backchannel_window,
}
use streamcore_server.Pipeline.Inbound

-- What reaches the loop: a frame, a partial, a final, or the agent that takes the signal.
pub data Input : Type 0 where
  frame : Frame → Input
  partial_text : Text → Input
  final_text taken : Input

unfoldable pub step : Unicode → Line → Input → Line
step u l (frame f) = on_frame u l f
step u l (partial_text t) = on_partial u l t
step u l final_text = on_final l
step u l taken = take_interrupt l

unfoldable pub run_inputs : Unicode → Line → List Input → Line
run_inputs u l [] = l
run_inputs u l (i ∷ is') = run_inputs u (step u l i) is'

-- A frame interrupts the agent exactly if a window is open and either it has passed, or the caller
-- stopped within it after words that are worth an interruption, and worth one in a readback too if
-- the guard holds one.
pub on_frame_interrupts :
    (u : Unicode) (l : Line) (f : Frame)
    → l.interrupt ≡ false
    → ((on_frame u l f).interrupt ≡ true) ↔ (
        (l.barge_in_pending ≡ true)
        × ((l.barge_in_start + backchannel_window ≤ f.now)
            ⊎ ((f.is_voice ≡ false)
                × (is_meaningful_barge_in_transcript u l.latest_partial ≡ true)
                × (f.is_guarded ≡ true → is_strong_barge_in_command u l.latest_partial ≡ true))))
unfolding on_frame Inbound.confirm Inbound.classify Inbound.open_window Inbound.fire
    Inbound.suppress Inbound.send_interrupt Inbound.maybe_restore_duck Inbound.maybe_start_duck
on_frame_interrupts u l f h = ground arith

-- The agent's voice is lowered while a window is open.
abbrev IsDucked : Line → Type 0
IsDucked l = l.barge_in_pending ≡ true → l.audio_muted ≡ true

step-IsDucked : (u : Unicode) (l : Line) (i : Input) → IsDucked l → IsDucked (step u l i)
unfolding step on_frame on_partial on_final take_interrupt Inbound.confirm Inbound.classify
    Inbound.open_window Inbound.fire Inbound.suppress Inbound.send_interrupt
    Inbound.maybe_restore_duck Inbound.maybe_start_duck
step-IsDucked u l (frame f) d = ground arith
step-IsDucked u l (partial_text t) d = d
step-IsDucked u l final_text d = d
step-IsDucked u l taken d = d

run_inputs-IsDucked :
    (u : Unicode) (l : Line) (is' : List Input) → IsDucked l → IsDucked (run_inputs u l is')
unfolding run_inputs
run_inputs-IsDucked u l [] d = d
run_inputs-IsDucked u l (i ∷ is') d = run_inputs-IsDucked u (step u l i) is' (step-IsDucked u l i d)

-- Whatever is heard and said in a call, the agent's voice is lowered whenever a window is open.
pub open_window_ducks :
    (u : Unicode) (is' : List Input)
    → (run_inputs u new_line is').barge_in_pending ≡ true
    → (run_inputs u new_line is').audio_muted ≡ true
open_window_ducks u is' = run_inputs-IsDucked u new_line is' (λ e. ground arith)

-- No partials among the inputs.
abbrev pub NoPartials : List Input → Type 0
NoPartials [] = Unit {0}
NoPartials (partial_text _ ∷ _) = ⊥
NoPartials (_ ∷ is') = NoPartials is'

no_words : (u : Unicode) → is_meaningful_barge_in_transcript u [] ≡ false
unfolding is_meaningful_barge_in_transcript is_meaningful fields normalized_transcript_text join
no_words u = refl

keeps_no_text :
    (u : Unicode) (l : Line) (is' : List Input)
    → NoPartials is'
    → l.latest_partial ≡ []
    → (run_inputs u l is').latest_partial ≡ []
unfolding run_inputs step on_frame on_final take_interrupt Inbound.confirm Inbound.classify
    Inbound.open_window Inbound.fire Inbound.suppress Inbound.send_interrupt
    Inbound.maybe_restore_duck Inbound.maybe_start_duck
keeps_no_text u l [] n e = e
keeps_no_text u l (frame f ∷ is') n e = keeps_no_text u (on_frame u l f) is' n (ground arith)
keeps_no_text u l (partial_text _ ∷ is') n e = absurd n
keeps_no_text u l (final_text ∷ is') n e = keeps_no_text u (on_final l) is' n refl
keeps_no_text u l (taken ∷ is') n e = keeps_no_text u (take_interrupt l) is' n e

no_interrupt : (u : Unicode) (t : Text) → t ≡ [] → is_meaningful_barge_in_transcript u t ≢ true
no_interrupt u t e m = ground (arith, no_words u, ap (is_meaningful_barge_in_transcript u) e)

-- With a provider that sends no partials, the agent is never interrupted before a window has fully
-- passed: over any course of a call without partials, a frame that interrupts comes that late.
pub finals_only_waits :
    (u : Unicode) (is' : List Input) (f : Frame)
    → NoPartials is'
    → let l = run_inputs u new_line is' in
      l.interrupt ≡ false
      → (on_frame u l f).interrupt ≡ true
      → l.barge_in_start + backchannel_window ≤ f.now
finals_only_waits u is' f n h e =
    let l = run_inputs u new_line is' in
    elim ((on_frame_interrupts u l f h).0 e).1 [
      | inl late ↦ late
      | inr (_, m, _) ↦
          absurd (no_interrupt u l.latest_partial (keeps_no_text u new_line is' n refl) m)
    ]

-- Frames without the caller's voice, one after the other.
unfoldable pub run_frames : Unicode → Line → List Frame → Line
run_frames u l [] = l
run_frames u l (f ∷ fs) = run_frames u (on_frame u l f) fs

abbrev pub AllQuiet : List Frame → Type 0
AllQuiet [] = Unit {0}
AllQuiet (f ∷ fs) = (f.is_voice ≡ false) × AllQuiet fs

quiet_frame :
    (u : Unicode) (l : Line) (f : Frame)
    → f.is_voice ≡ false
    → l.barge_in_pending ≡ false
    → on_frame u l f ≡ l
unfolding on_frame
quiet_frame u l f h e = ground arith

quiet_same :
    (u : Unicode) (l : Line) (fs : List Frame)
    → AllQuiet fs
    → l.barge_in_pending ≡ false
    → run_frames u l fs ≡ l
unfolding run_frames
quiet_same u l [] q e = refl
quiet_same u l (f ∷ fs) (h, q) e =
    ap (λ k. run_frames u k fs) (quiet_frame u l f h e) ∙ quiet_same u l fs q e

short_fires :
    (u : Unicode) (l : Line) (f : Frame)
    → l.barge_in_pending ≡ true
    → f.now < l.barge_in_start + backchannel_window
    → f.is_voice ≡ false
    → is_meaningful_barge_in_transcript u l.latest_partial ≡ true
    → f.is_guarded ≡ false
    → on_frame u l f ≡ record l { barge_in_pending = false; interrupt = true }
unfolding on_frame Inbound.classify Inbound.fire Inbound.send_interrupt
short_fires u l f p soon v w g = ground arith

-- A short interruption never raises the agent's voice again: once the caller stops within the
-- window after words that are worth an interruption, the interrupt is out and the window is closed,
-- but the voice stays lowered, however long the caller then keeps quiet.
pub short_stays_ducked :
    (u : Unicode) (l : Line) (f : Frame) (fs : List Frame)
    → l.barge_in_pending ≡ true
    → l.audio_muted ≡ true
    → f.now < l.barge_in_start + backchannel_window
    → f.is_voice ≡ false
    → is_meaningful_barge_in_transcript u l.latest_partial ≡ true
    → f.is_guarded ≡ false
    → AllQuiet fs
    → let q = run_frames u (on_frame u l f) fs in
      (q.interrupt ≡ true) × (q.barge_in_pending ≡ false) × (q.audio_muted ≡ true)
short_stays_ducked u l f fs p m soon v w g q = rw (short_fires u l f p soon v w g) (
    rw (quiet_same u (record l { barge_in_pending = false; interrupt = true }) fs q refl)
      (refl, refl, m))
