-- ===== src/Vad/Detector/Debounce.antt =====
-- When the detector says that speech starts and ends.
use streamcore_server.Base.{
  Bool, List, Option, [], arith, false, leb, not, refl, suc, true, ℕ, ◌&&◌, ◌||◌, ◌∷◌, ◌≡◌,
}
use streamcore_server.Vad.{Floats}
use streamcore_server.Vad.EchoGuard.{Guard}
use streamcore_server.Vad.Detector.{
  Detector, process, reset, is_loud, echo_threshold, on_loud, on_quiet, learn, update_noise_floor,
}

-- How many frames at the head of a history, the newest first, are loud, or are quiet.
abbrev pub run : Bool → List Bool → ℕ
run b [] = 0
run true (true ∷ bs) = suc (run true bs)
run true (false ∷ bs) = 0
run false (true ∷ bs) = 0
run false (false ∷ bs) = suc (run false bs)

module _ (fl : Floats) where
  abbrev loud : Detector fl → Option (Guard fl) → ℕ → List ℕ → Bool
  loud d echo now samples = is_loud fl d (echo_threshold fl echo now).1 samples

  -- A detector and the frames since it was made or reset, with the echo reference of each frame.
  pub data Heard : Detector fl → List Bool → Type 0 where
    restarted : (d : Detector fl) → Heard (reset fl d) []
    frame :
        {d : Detector fl} {bs : List Bool}
        → Heard d bs
        → (echo : Option (Guard fl)) (now : ℕ) (samples : List ℕ)
        → Heard (process fl d echo now samples).1.0 (loud d echo now samples ∷ bs)

  Counted : Detector fl → List Bool → Type 0
  Counted d bs = (d.speech_count ≡ run true bs) × (d.silent_count ≡ run false bs)

  process-Counted :
      (d : Detector fl) (bs : List Bool) (echo : Option (Guard fl)) (now : ℕ) (samples : List ℕ)
      → Counted d bs
      → Counted (process fl d echo now samples).1.0 (loud d echo now samples ∷ bs)
  unfolding process on_loud on_quiet learn update_noise_floor Counted
  process-Counted d bs echo now samples (e, f) = ground (arith, e, f)

  Heard-Counted : {d : Detector fl} {bs : List Bool} → Heard d bs → Counted d bs
  unfolding Counted reset
  Heard-Counted (restarted d) = (refl, refl)
  Heard-Counted (frame {d = d} {bs = bs} h echo now samples) =
      process-Counted d bs echo now samples (Heard-Counted h)

  -- For every frame of a history from a reset on: speech starts exactly if the detector is not in speech and, with this frame, the last
  -- `speech_frames` frames or more were all loud; it ends exactly if the detector is in speech and
  -- the last `silent_frames` or more were all quiet. It is in speech afterwards exactly if it was,
  -- or speech started, and speech did not end.
  pub process_debounces :
      {d : Detector fl} {bs : List Bool}
      → Heard d bs
      → (echo : Option (Guard fl)) (now : ℕ) (samples : List ℕ)
      → let b = loud d echo now samples in
        let (q, started, ended) = (process fl d echo now samples).1 in
        (started ≡ (not d.is_speaking && b && leb d.speech_frames (run true (b ∷ bs))))
        × (ended ≡ (d.is_speaking && not b && leb d.silent_frames (run false (b ∷ bs))))
        × (q.is_speaking ≡ ((d.is_speaking || started) && not ended))
  unfolding process on_loud on_quiet learn update_noise_floor Counted
  process_debounces {d = d} {bs = bs} h echo now samples =
      let (e, f) = Heard-Counted h in ground (arith, e, f)
