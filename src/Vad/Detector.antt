-- ===== src/Vad/Detector.antt =====
-- internal/vad/vad.go: speech is a number of loud frames in a row. The echo reference is shared with
-- the sender, so it is an argument and a result of Process.
pub mod Debounce
use streamcore_server.Base.{
  Bool, List, Option, false, if◌then◌else◌, leb, none, not, some, true, ℕ, ◌&&◌, ◌+◌, ◌||◌,
}
use streamcore_server.Vad.{Floats, rms_energy}
use streamcore_server.Vad.EchoGuard.{Guard}
use streamcore_server.Vad.EchoGuard

module _ (fl : Floats) where
  pub record Detector : Type 0 where
    pub threshold : fl.Value
    pub speech_frames : ℕ
    pub silent_frames : ℕ
    pub is_speaking : Bool
    pub speech_count : ℕ
    pub silent_count : ℕ
    pub adaptive : Bool
    -- Negative if there is none yet.
    pub noise_floor : fl.Value

  -- New
  unfoldable pub new_detector : fl.Value → ℕ → ℕ → Detector
  new_detector threshold speech_frames silent_frames = record {
    threshold = threshold;
    speech_frames = speech_frames;
    silent_frames = silent_frames;
    is_speaking = false;
    speech_count = 0;
    silent_count = 0;
    adaptive = false;
    noise_floor = fl.minus_one;
  }

  unfoldable pub new_default : Detector
  unfolding new_detector
  new_default = record (new_detector (fl.decimal 12000 1) 10 15) { adaptive = true }

  unfoldable pub new_barge_in : Detector
  unfolding new_detector
  new_barge_in = record (new_detector (fl.decimal 12000 1) 2 15) { adaptive = true }

  abbrev pub at_least : fl.Value → fl.Value → fl.Value
  at_least bound x = if fl.less x bound then bound else x

  abbrev pub at_most : fl.Value → fl.Value → fl.Value
  at_most bound x = if fl.less bound x then bound else x

  unfoldable pub noise_threshold : Detector → fl.Value
  noise_threshold d =
      if not d.adaptive || fl.less d.noise_floor (fl.of_nat 0)
      then d.threshold
      else at_most (fl.times d.threshold (fl.decimal 25 1))
          (at_least (fl.decimal 9000 1) (fl.times d.noise_floor (fl.decimal 30 1)))

  unfoldable pub update_noise_floor : Detector → fl.Value → Detector
  update_noise_floor d energy =
      if not d.adaptive
      then d
      else if fl.less d.noise_floor (fl.of_nat 0)
      then record d { noise_floor = energy }
      else record d {
        noise_floor =
            fl.plus (fl.times (fl.decimal 95 2) d.noise_floor) (fl.times (fl.decimal 5 2) energy);
      }

  -- A nil reference has the threshold 0.
  unfoldable pub echo_threshold : Option (Guard fl) → ℕ → Option (Guard fl) × fl.Value
  echo_threshold none now = (none, fl.of_nat 0)
  echo_threshold (some g) now = let (h, t) = EchoGuard.threshold fl g now in (some h, t)

  unfoldable pub effective_threshold : Detector → fl.Value → fl.Value
  unfolding noise_threshold
  effective_threshold d echo_thr = at_least echo_thr (noise_threshold d)

  -- The state after a frame, whether speech has started, and whether it has ended.
  unfoldable pub on_loud : Detector → Detector × Bool × Bool
  on_loud d =
      let n = d.speech_count + 1 in
      let q = record d { speech_count = n; silent_count = 0 } in
      if not d.is_speaking && leb d.speech_frames n
      then (record q { is_speaking = true }, true, false)
      else (q, false, false)

  unfoldable pub on_quiet : Detector → Detector × Bool × Bool
  on_quiet d =
      let n = d.silent_count + 1 in
      let q = record d { silent_count = n; speech_count = 0 } in
      if d.is_speaking && leb d.silent_frames n
      then (record q { is_speaking = false }, false, true)
      else (q, false, false)

  unfoldable pub learn : Detector → fl.Value → fl.Value → Detector
  unfolding update_noise_floor
  learn d echo_thr energy =
      if fl.equal echo_thr (fl.of_nat 0) then update_noise_floor d energy else d

  unfoldable pub is_loud : Detector → fl.Value → List ℕ → Bool
  unfolding effective_threshold
  is_loud d echo_thr samples = fl.less (effective_threshold d echo_thr) (rms_energy fl samples)

  unfoldable pub process :
      Detector → Option (Guard fl) → ℕ → List ℕ → Option (Guard fl) × (Detector × Bool × Bool)
  unfolding echo_threshold is_loud on_loud on_quiet learn
  process d echo now samples =
      let (g, echo_thr) = echo_threshold echo now in
      if is_loud d echo_thr samples
      then (g, on_loud d)
      else (g, on_quiet (learn d echo_thr (rms_energy fl samples)))

  unfoldable pub reset : Detector → Detector
  reset d = record d { is_speaking = false; speech_count = 0; silent_count = 0 }
