-- ===== src/Vad/EchoGuard/Paced.antt =====
-- internal/vad/echo.go: the ring, when frames come paced.
use streamcore_server.Base.{
  Bool-cases, List, [], ap, arith, false, if-either, inl, inr, length, length-replicate, ltb, refl,
  true, ℕ, ◌*◌, ◌++◌, ◌+◌, ◌/◌, ◌<◌, ◌==◌, ◌∙◌, ◌∷◌, ◌≡◌, ◌≤◌,
}
use streamcore_server.Vad.{Floats, rms_energy}
use streamcore_server.Vad.EchoGuard.{Sample, Guard, new_echo_guard, observe, floor, ms}
use streamcore_server.Vad.EchoGuard.Cells.{Fits, live}
use streamcore_server.Vad.EchoGuard.Ring.{
  drop_stale, add_frame, loudest, ring_refines, observe_keeps,
}

module _ (fl : Floats) where
  abbrev gap : ℕ
  gap = 5 * ms fl

  -- When the frame after a list was sent.
  abbrev then_at : ℕ → List (Sample fl) → ℕ
  then_at until [] = until
  then_at until (x ∷ _) = x.at

  -- Every frame was sent 5ms or more before the next one, and the last one before `until`.
  abbrev pub Spaced : ℕ → List (Sample fl) → Type 0
  Spaced until [] = Unit {0}
  Spaced until (x ∷ xs) = (x.at + gap ≤ then_at until xs) × Spaced until xs

  -- Every frame was sent by this time.
  abbrev pub SentBy : ℕ → List (Sample fl) → Type 0
  SentBy now [] = Unit {0}
  SentBy now (x ∷ xs) = (x.at ≤ now) × SentBy now xs

  -- A guard since it was made, and all frames that were sent on it.
  pub data Sends (window : ℕ) (gain margin : fl.Value) : Guard fl → List (Sample fl) → Type 0 where
    made : Sends window gain margin (new_echo_guard fl window gain margin) []
    sent :
        {g : Guard fl} {xs : List (Sample fl)}
        → Sends window gain margin g xs
        → (now : ℕ) (samples : List ℕ) → Spaced now xs
        → Sends window gain margin
            (observe fl g now samples)
            (xs ++ (record { at = now; rms = rms_energy fl samples } ∷ []))

  Spaced-length :
      (until : ℕ) (xs : List (Sample fl))
      → Spaced until xs
      → then_at until xs + gap * length xs ≤ until
  Spaced-length until [] h = omega arith
  Spaced-length until (x ∷ xs) (le, h) = omega (arith, le, Spaced-length until xs h)

  drop_stale-Spaced :
      (until window now : ℕ) (xs : List (Sample fl))
      → Spaced until xs
      → Spaced until (drop_stale fl window now xs)
  unfolding drop_stale
  drop_stale-Spaced until window now [] h = tt
  drop_stale-Spaced until window now (x ∷ xs) (le, h) =
      if-either (Spaced until) (ltb (x.at + window) now) (drop_stale-Spaced until window now xs h)
        (le, h)

  -- Frames that are left are at most a window's worth.
  left_over :
      (window now : ℕ) (xs : List (Sample fl))
      → Spaced now xs
      → length (drop_stale fl window now xs) ≤ window / gap
  unfolding drop_stale
  left_over window now [] h = omega arith
  left_over window now (x ∷ xs) (le, h) = elim (Bool-cases (ltb (x.at + window) now)) [
    | inl e ↦ rw e (left_over window now xs h)
    | inr e ↦
        let fresh : now ≤ x.at + window = ground arith in
        rw e (omega (arith, fresh, Spaced-length now (x ∷ xs) (le, h)))
  ]

  -- Dropping twice is dropping at the later time, also with one more frame at the end.
  drop_stale_twice :
      (window t now : ℕ) (xs ys : List (Sample fl))
      → t ≤ now
      → drop_stale fl window now (drop_stale fl window t xs ++ ys)
        ≡ drop_stale fl window now (xs ++ ys)
  unfolding drop_stale
  drop_stale_twice window t now [] ys le = refl
  drop_stale_twice window t now (x ∷ xs) ys le = elim (Bool-cases (ltb (x.at + window) t)) [
    | inl e ↦
        let f : ltb (x.at + window) now ≡ true = ground arith in
        rw (e, f) (drop_stale_twice window t now xs ys le)
    | inr e ↦ rw e refl
  ]

  SentBy-last :
      (now : ℕ) (xs : List (Sample fl)) (x : Sample fl) → SentBy now (xs ++ (x ∷ [])) → x.at ≤ now
  SentBy-last now [] x (le, _) = le
  SentBy-last now (y ∷ xs) x (_, h) = SentBy-last now xs x h

  Spaced-SentBy : (now : ℕ) (xs : List (Sample fl)) → Spaced now xs → SentBy now xs
  Spaced-SentBy now [] h = tt
  Spaced-SentBy now (x ∷ xs) (le, h) =
      (omega (arith, le, Spaced-length now xs h), Spaced-SentBy now xs h)

  -- What of a guard that was made with some settings the history determines.
  record Kept (o g : Guard fl) (xs : List (Sample fl)) : Type 0 where
    fits : Fits fl g
    settings : (g.window ≡ o.window) × (g.gain ≡ o.gain) × (length g.buf ≡ o.window / gap + 8)
    recent :
        (now : ℕ)
        → SentBy now xs
        → drop_stale fl o.window now (live fl g) ≡ drop_stale fl o.window now xs

  made-Kept :
      (window : ℕ) (gain margin : fl.Value)
      → let o = new_echo_guard fl window gain margin in Kept o o []
  unfolding new_echo_guard live
  made-Kept window gain margin =
      let o = new_echo_guard fl window gain margin in
      let n = length-replicate (o.window / gap + 8) (record { at = 0; rms = fl.of_nat 0 }) in
      record {
        fits = record { start_below = omega (arith, n); count_within = omega arith };
        settings = (refl, refl, n);
        recent = λ now h. refl;
      }

  add_frame_room :
      (capacity : ℕ) (ys : List (Sample fl)) (s : Sample fl)
      → length ys < capacity
      → add_frame fl capacity ys s ≡ ys ++ (s ∷ [])
  unfolding add_frame
  add_frame_room capacity ys s lt =
      let e : (length ys == capacity) ≡ false = ground arith in rw e refl

  sent-Kept :
      (o g : Guard fl) (xs : List (Sample fl)) (now : ℕ) (samples : List ℕ)
      → Kept o g xs
      → Spaced now xs
      → Kept o
          (observe fl g now samples)
          (xs ++ (record { at = now; rms = rms_energy fl samples } ∷ []))
  sent-Kept o g xs now samples k h =
      let s : Sample fl = record { at = now; rms = rms_energy fl samples } in
      let (w, gn, n) = k.settings in
      let (w', gn', n') = observe_keeps fl g now samples k.fits in
      let (fits', new, _, _, _) = ring_refines fl g now samples k.fits in
      let ys = drop_stale fl o.window now xs in
      let old =
        ap (λ (v : ℕ). drop_stale fl v now (live fl g)) w ∙ k.recent now (Spaced-SentBy now xs h) in
      let room =
        add_frame_room (length g.buf) ys s (omega (arith, n, left_over o.window now xs h)) in
      let new' =
        new ∙ (ap (λ (zs : List (Sample fl)). add_frame fl (length g.buf) zs s) old ∙ room) in
      record {
        fits = fits';
        settings = (w' ∙ w, gn' ∙ gn, n' ∙ n);
        recent = λ later sent_by.
            ap (drop_stale fl o.window later) new'
            ∙ drop_stale_twice o.window now later xs (s ∷ []) (SentBy-last later xs s sent_by);
      }

  Sends-Kept :
      (window : ℕ) (gain margin : fl.Value) {g : Guard fl} {xs : List (Sample fl)}
      → Sends window gain margin g xs
      → Kept (new_echo_guard fl window gain margin) g xs
  Sends-Kept window gain margin made = made-Kept window gain margin
  Sends-Kept window gain margin (sent {g = g} {xs = xs} r now samples h) =
      sent-Kept (new_echo_guard fl window gain margin) g xs now samples
        (Sends-Kept window gain margin r) h

  -- However many frames were sent on a guard, if they came 5ms or more apart: at any time from the
  -- last of them on, the floor is the loudest of all frames since the first that is not older than
  -- the window, times the gain. So the size of the ring never hides a frame.
  pub floor_hears_all :
      (window : ℕ) (gain margin : fl.Value) {g : Guard fl} {xs : List (Sample fl)}
      → Sends window gain margin g xs
      → (now : ℕ) → SentBy now xs
      → let o = new_echo_guard fl window gain margin in
        (floor fl g now).1
        ≡ fl.times (loudest fl (fl.of_nat 0) (drop_stale fl o.window now xs)) o.gain
  floor_hears_all window gain margin {g = g} {xs = xs} r now h =
      let o = new_echo_guard fl window gain margin in
      let k = Sends-Kept window gain margin r in
      let (w, gn, _) = k.settings in
      let (_, _, f, _, _) = ring_refines fl g now [] k.fits in
      f
      ∙ (ap
            (λ (v : ℕ).
              fl.times (loudest fl (fl.of_nat 0) (drop_stale fl v now (live fl g))) g.gain)
            w
          ∙ (ap (λ (ys : List (Sample fl)). fl.times (loudest fl (fl.of_nat 0) ys) g.gain)
                (k.recent now h)
              ∙ ap (fl.times (loudest fl (fl.of_nat 0) (drop_stale fl o.window now xs))) gn))
