-- ===== src/Examples/Frames.antt =====
-- Audio: frames of the agent's voice, samples as bytes, and a detector over integer energies.
use streamcore_server.Base.{
  List, [], arith, false, if◌then◌else◌, leb, length-replicate, ltb, none, not, refl, replicate,
  true, ℕ, ◌&&◌, ◌*◌, ◌+◌, ◌/◌, ◌==◌, ◌||◌, ◌∷◌, ◌≡◌,
}
use streamcore_server.Audio.{linear16_bytes}
use streamcore_server.Pipeline.Realtime.AudioQueue.{Queue, Outcome, discard, end_response, next}
use streamcore_server.Pipeline.Realtime.AudioQueue.Drain.{drain, Response, end_response_drains}
use streamcore_server.Vad.{Floats, rms_energy}
use streamcore_server.Vad.EchoGuard.{Guard, Sample, new_echo_guard, observe, floor}
use streamcore_server.Vad.EchoGuard.Cells.{Fits}
use streamcore_server.Vad.EchoGuard.Ring.{drop_stale, loudest}
use streamcore_server.Vad.EchoGuard.Paced.{made, sent, floor_hears_all}
use streamcore_server.Vad.Detector.{Detector, new_barge_in, process, reset}
use streamcore_server.Vad.Detector
use streamcore_server.Vad.Detector.Debounce.{Heard, restarted, frame, run, process_debounces}

abbrev speech : Queue
speech = record { pending = replicate 500 7; flush = false; closed = false }

end_response_drains_example :
    let (r, cs) = drain 2 (end_response speech) in
    (r ≡ record speech { pending = []; flush = false })
    × (next r ≡ (r, Outcome.waits))
    × Response speech.pending cs
end_response_drains_example =
    end_response_drains speech 2 refl (omega (arith, length-replicate {A = ℕ} 500 7))

-- A barge-in leaves nothing to play.
discarded : (next (end_response (discard speech))).0.pending ≡ []
unfolding next end_response discard
discarded = refl

minus_one_bytes : linear16_bytes (65535 ∷ []) ≡ 255 ∷ 255 ∷ []
unfolding linear16_bytes
minus_one_bytes = refl

-- Energies as natural numbers, in tenths and one more: minus one is 0.
abbrev tenths : Floats
tenths = record {
  Value = ℕ;
  less = ltb;
  equal = ◌==◌;
  plus = ◌+◌;
  times = λ a b. a * b / 10;
  over = ◌/◌;
  sqrt = λ a. a;
  of_nat = λ n. n * 10 + 1;
  of_int16 = λ n. n * 10;
  decimal = λ n d. if d == 0 then n * 10 else n;
  minus_one = 0;
}

abbrev shout : List ℕ
shout = replicate 4 3000

abbrev fresh : Detector tenths
fresh = reset tenths (new_barge_in tenths)

abbrev shouted : Detector tenths
shouted = (process tenths fresh none 20 shout).1.0

one_loud : Heard tenths shouted (Detector.is_loud tenths fresh (tenths.of_nat 0) shout ∷ [])
unfolding Detector.echo_threshold
one_loud = frame (restarted (new_barge_in tenths)) none 20 shout

process_debounces_example :
    let b = Detector.is_loud tenths shouted (Detector.echo_threshold tenths none 40).1 shout in
    let before = Detector.is_loud tenths fresh (tenths.of_nat 0) shout in
    let (q, started, ended) = (process tenths shouted none 40 shout).1 in
    (started
      ≡ (not shouted.is_speaking && b && leb shouted.speech_frames (run true (b ∷ before ∷ []))))
    × (ended
        ≡ (shouted.is_speaking && not b && leb shouted.silent_frames (run false (b ∷ before ∷ []))))
    × (q.is_speaking ≡ ((shouted.is_speaking || started) && not ended))
process_debounces_example = process_debounces tenths one_loud none 40 shout

-- The second loud frame starts speech for the barge-in detector.
second_frame_starts : (process tenths shouted none 40 shout).1.1 ≡ true
unfolding process Detector.echo_threshold Detector.is_loud Detector.on_loud
    Detector.effective_threshold Detector.noise_threshold reset new_barge_in Detector.new_detector
    rms_energy
second_frame_starts = refl

abbrev guard : Guard tenths
guard = new_echo_guard tenths 400_000_000 6 18

guard-Fits : Fits tenths guard
unfolding new_echo_guard
guard-Fits = record { start_below = omega arith; count_within = omega arith }

abbrev echo_sample : Sample tenths
echo_sample = record { at = 20; rms = rms_energy tenths shout }

floor_hears_all_example :
    (floor tenths (observe tenths guard 20 shout) 30).1
    ≡ tenths.times
        (loudest tenths (tenths.of_nat 0) (drop_stale tenths guard.window 30 (echo_sample ∷ [])))
        guard.gain
floor_hears_all_example =
    floor_hears_all tenths 400_000_000 6 18 (sent (made) 20 shout tt) 30 (omega arith, tt)
