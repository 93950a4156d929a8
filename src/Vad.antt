-- ===== src/Vad.antt =====
-- internal/vad: the energy of a frame, and what the detector and its echo reference need of float64.
pub mod EchoGuard
pub mod Detector
use streamcore_server.Base.{Bool, List, [], if◌then◌else◌, is_empty, length, ℕ, ◌∷◌}

-- float64 and math.Sqrt.
pub record Floats : Type 1 where
  pub Value : Type 0
  pub less : Value → Value → Bool
  pub equal : Value → Value → Bool
  pub plus : Value → Value → Value
  pub times : Value → Value → Value
  pub over : Value → Value → Value
  pub sqrt : Value → Value
  pub of_nat : ℕ → Value
  -- The number of a 16-bit pattern.
  pub of_int16 : ℕ → Value
  -- A literal by its digits and how many of them are decimals.
  pub decimal : ℕ → ℕ → Value
  pub minus_one : Value

module _ (fl : Floats) where
  unfoldable pub squares : fl.Value → List ℕ → fl.Value
  squares sum [] = sum
  squares sum (s ∷ samples) =
      squares (fl.plus sum (fl.times (fl.of_int16 s) (fl.of_int16 s))) samples

  unfoldable pub rms_energy : List ℕ → fl.Value
  unfolding squares
  rms_energy samples =
      if is_empty samples
      then fl.of_nat 0
      else fl.sqrt (fl.over (squares (fl.of_nat 0) samples) (fl.of_nat (length samples)))
