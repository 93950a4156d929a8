-- ===== src/Vad/EchoGuard.antt =====
-- internal/vad/echo.go: the loudest of what the agent sent lately, in a ring of frames. Times are
-- nanoseconds; a missing entry reads as the zero value of a sample.
pub mod Cells
pub mod Ring
pub mod Paced
use streamcore_server.Base.{
  Bool, List, [], get_elem?, if◌then◌else◌, length, ltb, none, replicate, some, suc, zero, ℕ, ◌%◌,
  ◌*◌, ◌+◌, ◌-◌, ◌/◌, ◌==◌, ◌||◌, ◌∷◌,
}
use streamcore_server.Vad.{Floats, rms_energy}

module _ (fl : Floats) where
  -- echoSample
  pub record Sample : Type 0 where
    pub at : ℕ
    pub rms : fl.Value

  pub record Guard : Type 0 where
    pub window : ℕ
    pub gain : fl.Value
    pub margin : fl.Value
    pub buf : List Sample
    pub start : ℕ
    pub count : ℕ

  abbrev pub no_sample : Sample
  no_sample = record { at = 0; rms = fl.of_nat 0 }

  abbrev pub ms : ℕ
  ms = 1_000_000

  abbrev pub default_echo_window : ℕ
  default_echo_window = 400 * ms

  unfoldable pub positive_or : fl.Value → fl.Value → fl.Value
  positive_or given default =
      if fl.less given (fl.of_nat 0) || fl.equal given (fl.of_nat 0) then default else given

  -- NewEchoGuard; a window that is not positive is 0 here.
  unfoldable pub new_echo_guard : ℕ → fl.Value → fl.Value → Guard
  unfolding positive_or
  new_echo_guard window gain margin =
      let w = if window == 0 then default_echo_window else window in
      record {
        window = w;
        gain = positive_or gain (fl.decimal 6 1);
        margin = positive_or margin (fl.decimal 18 1);
        buf = replicate (w / (5 * ms) + 8) no_sample;
        start = 0;
        count = 0;
      }

  abbrev pub read : List Sample → ℕ → Sample
  read buf i = elim (get_elem? buf i) [ none ↦ no_sample | some s ↦ s ]

  abbrev pub write : List Sample → ℕ → Sample → List Sample
  write [] i s = []
  write (x ∷ xs) zero s = s ∷ xs
  write (x ∷ xs) (suc i) s = x ∷ write xs i s

  -- The entry at `start` has aged out.
  unfoldable pub is_stale : Guard → ℕ → Bool
  is_stale g now = ltb ((read g.buf g.start).at + g.window) now

  unfoldable pub advance : Guard → Guard
  advance g = record g { start = (g.start + 1) % length g.buf; count = g.count - 1 }

  -- The loop of prune, one entry a turn.
  unfoldable pub prune_from : ℕ → Guard → ℕ → Guard
  unfolding is_stale advance
  prune_from zero g now = g
  prune_from (suc k) g now =
      let rest = prune_from k (advance g) now in if is_stale g now then rest else g

  unfoldable pub prune : Guard → ℕ → Guard
  unfolding prune_from
  prune g now = prune_from g.count g now

  unfoldable pub make_room : Guard → Guard
  unfolding advance
  make_room g = if g.count == length g.buf then advance g else g

  unfoldable pub put : Guard → Sample → Guard
  put g s = record g {
    buf = write g.buf ((g.start + g.count) % length g.buf) s;
    count = g.count + 1;
  }

  unfoldable pub observe : Guard → ℕ → List ℕ → Guard
  unfolding prune make_room put
  observe g now samples =
      put (make_room (prune g now)) (record { at = now; rms = rms_energy fl samples })

  -- The loop of Floor, from the i-th entry on, k entries.
  unfoldable pub peak_from : ℕ → ℕ → Guard → fl.Value → fl.Value
  peak_from zero i g peak = peak
  peak_from (suc k) i g peak =
      let v = (read g.buf ((g.start + i) % length g.buf)).rms in
      peak_from k (suc i) g (if fl.less peak v then v else peak)

  unfoldable pub floor : Guard → ℕ → Guard × fl.Value
  unfolding prune peak_from
  floor g now = let p = prune g now in (p, fl.times (peak_from p.count 0 p (fl.of_nat 0)) p.gain)

  unfoldable pub threshold : Guard → ℕ → Guard × fl.Value
  unfolding floor
  threshold g now = let (p, f) = floor g now in (p, fl.times f g.margin)

  unfoldable pub reset : Guard → Guard
  reset g = record g { start = 0; count = 0 }
