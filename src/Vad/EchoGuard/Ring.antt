-- ===== src/Vad/EchoGuard/Ring.antt =====
-- internal/vad/echo.go: the ring, read as a list of frames.
use streamcore_server.Base.{
  ==_iff, Bool-cases, List, [], ap, arith, drop, false, if◌then◌else◌, inl, inr, length, ltb, refl,
  suc, true, zero, ℕ, ◌%◌, ◌++◌, ◌+◌, ◌-◌, ◌<◌, ◌==◌, ◌∙◌, ◌∷◌, ◌≡◌, ◌≤◌,
}
use streamcore_server.Vad.{Floats, rms_energy}
use streamcore_server.Vad.EchoGuard.{
  Sample, Guard, read, is_stale, advance, prune_from, prune, make_room, put, observe, peak_from,
  floor, reset,
}
use streamcore_server.Vad.EchoGuard.Cells.{
  Fits, live, cells, length-write, put_live, advance_live, live_none, length-cells,
}

module _ (fl : Floats) where
  -- The list without the frames at its head that have aged out.
  unfoldable pub drop_stale : ℕ → ℕ → List (Sample fl) → List (Sample fl)
  drop_stale window now [] = []
  drop_stale window now (x ∷ xs) =
      if ltb (x.at + window) now then drop_stale window now xs else x ∷ xs

  -- The list with one more frame, and at most `capacity` of them.
  unfoldable pub add_frame : ℕ → List (Sample fl) → Sample fl → List (Sample fl)
  add_frame capacity xs s = (if length xs == capacity then drop 1 xs else xs) ++ (s ∷ [])

  -- The loudest of a list of frames.
  unfoldable pub loudest : fl.Value → List (Sample fl) → fl.Value
  loudest peak [] = peak
  loudest peak (x ∷ xs) = loudest (if fl.less peak x.rms then x.rms else peak) xs

  stale_at :
      (g : Guard fl) (now : ℕ)
      → ((is_stale fl g now ≡ true) → (ltb ((read fl g.buf g.start).at + g.window) now ≡ true))
        × ((is_stale fl g now ≡ false) → (ltb ((read fl g.buf g.start).at + g.window) now ≡ false))
  unfolding is_stale
  stale_at g now = (λ e. e, λ e. e)

  prune_from_live :
      (k : ℕ) (g : Guard fl) (now : ℕ)
      → Fits fl g
      → g.count ≡ k
      → let q = prune_from fl k g now in
        Fits fl q
        × (live fl q ≡ drop_stale g.window now (live fl g))
        × (q ≡ record g { start = q.start; count = q.count })
  unfolding prune_from drop_stale
  prune_from_live zero g now h e = let f : live fl g ≡ [] = live_none fl g e in (h, rw f refl, refl)
  prune_from_live (suc k) g now h e =
      let (h', f, c) = advance_live fl g k h e in
      elim (Bool-cases (is_stale fl g now)) [
        | inl stale ↦
            let (h'', f', same) = prune_from_live k (advance fl g) now h' c in
            rw stale (h'', rw f (rw ((stale_at g now).0 stale) f'), same)
        | inr fresh ↦ rw fresh (h, rw f (rw ((stale_at g now).1 fresh) refl), refl)
      ]

  length_live : (g : Guard fl) → length (live fl g) ≡ g.count
  unfolding live
  length_live g = length-cells fl g.buf g.start g.count

  peak_from-loudest :
      (k i : ℕ) (g : Guard fl) (peak : fl.Value)
      → peak_from fl k i g peak ≡ loudest peak (cells fl g.buf (g.start + i) k)
  unfolding peak_from loudest cells
  peak_from-loudest zero i g peak = refl
  peak_from-loudest (suc k) i g peak =
      let e : g.start + suc i ≡ suc (g.start + i) = omega arith in
      let v = (read fl g.buf ((g.start + i) % length g.buf)).rms in
      let louder = if fl.less peak v then v else peak in
      peak_from-loudest k (suc i) g louder ∙ ap (λ (j : ℕ). loudest louder (cells fl g.buf j k)) e

  advance_room :
      (g : Guard fl)
      → suc (g.count - 1) ≤ length g.buf
      → (advance fl g).count < length (advance fl g).buf
  unfolding advance
  advance_room g lt = lt

  make_room_live :
      (g : Guard fl)
      → Fits fl g
      → let q = make_room fl g in
        Fits fl q
        × (q.count < length q.buf)
        × (live fl q
            ≡ (if length (live fl g) == length g.buf then drop 1 (live fl g) else live fl g))
        × (q.buf ≡ g.buf)
  unfolding make_room
  make_room_live g h = elim (Bool-cases (g.count == length g.buf)) [
    | inr e ↦ rw e (h, ground (arith, h.count_within), rw (length_live g) (rw e refl), refl)
    | inl e ↦
        let n : g.count ≡ length g.buf = (==_iff g.count (length g.buf)).0 e in
        let (h', f, c) = advance_live fl g (g.count - 1) h (omega (arith, n, h.start_below)) in
        let lt : suc (g.count - 1) ≤ length g.buf = omega (arith, n, h.start_below) in
        rw e (h', advance_room g lt, rw (length_live g) (rw e (rw f refl)), refl)
  ]

  peak_live :
      (g : Guard fl) → peak_from fl g.count 0 g (fl.of_nat 0) ≡ loudest (fl.of_nat 0) (live fl g)
  unfolding live
  peak_live g =
      let e : g.start + 0 ≡ g.start = omega arith in
      peak_from-loudest g.count 0 g (fl.of_nat 0)
      ∙ ap (λ (j : ℕ). loudest (fl.of_nat 0) (cells fl g.buf j g.count)) e

  reset_count : (g : Guard fl) → (reset fl g).count ≡ 0
  unfolding reset
  reset_count g = refl

  make_room_keeps :
      (g : Guard fl) → ((make_room fl g).window ≡ g.window) × ((make_room fl g).gain ≡ g.gain)
  unfolding make_room advance
  make_room_keeps g = ground arith

  -- The settings and the size of the ring stay as they are made.
  pub observe_keeps :
      (g : Guard fl) (now : ℕ) (samples : List ℕ)
      → Fits fl g
      → let q = observe fl g now samples in
        (q.window ≡ g.window) × (q.gain ≡ g.gain) × (length q.buf ≡ length g.buf)
  unfolding observe prune put
  observe_keeps g now samples h =
      let s : Sample fl = record { at = now; rms = rms_energy fl samples } in
      let p = prune_from fl g.count g now in
      let (h', f, same) = prune_from_live g.count g now h refl in
      let (_, _, _, buf) = make_room_live p h' in
      let (w, gain) = make_room_keeps p in
      (
        w ∙ ap (λ (q : Guard fl). q.window) same,
        gain ∙ ap (λ (q : Guard fl). q.gain) same,
        length-write fl (make_room fl p).buf _ s
            ∙ (ap length buf ∙ ap (λ (q : Guard fl). length q.buf) same),
      )

  -- On a ring that fits: a frame is put at the end of the list, after those that have aged out are
  -- taken off its head, and one more if the ring is full; the floor is the loudest frame of the
  -- list, less those that have aged out, times the gain; a reset empties the list.
  pub ring_refines :
      (g : Guard fl) (now : ℕ) (samples : List ℕ)
      → Fits fl g
      → let xs = drop_stale g.window now (live fl g) in
        let q = observe fl g now samples in
        Fits fl q
        × (live fl q
            ≡ add_frame (length g.buf) xs (record { at = now; rms = rms_energy fl samples }))
        × ((floor fl g now).1 ≡ fl.times (loudest (fl.of_nat 0) xs) g.gain)
        × (live fl (floor fl g now).0 ≡ xs)
        × (live fl (reset fl g) ≡ [])
  unfolding observe floor prune add_frame
  ring_refines g now samples h =
      let s : Sample fl = record { at = now; rms = rms_energy fl samples } in
      let xs = drop_stale g.window now (live fl g) in
      let p = prune_from fl g.count g now in
      let (h', f, same) = prune_from_live g.count g now h refl in
      let (h'', lt, room, buf) = make_room_live p h' in
      let (fits, new) = put_live fl (make_room fl p) s h'' lt in
      (
        fits,
        new
            ∙ ap (λ (ys : List (Sample fl)). ys ++ (s ∷ []))
                (room
                  ∙ (ap
                        (λ (ys : List (Sample fl)).
                          if length ys == length p.buf then drop 1 ys else ys)
                        f
                      ∙ ap
                          (λ (b : List (Sample fl)).
                            if length xs == length b then drop 1 xs else xs)
                          (ap (λ (q : Guard fl). q.buf) same))),
        ap (λ (v : fl.Value). fl.times v p.gain) (peak_live p ∙ ap (loudest (fl.of_nat 0)) f)
            ∙ ap (fl.times (loudest (fl.of_nat 0) xs)) (ap (λ (q : Guard fl). q.gain) same),
        f,
        live_none fl (reset fl g) (reset_count g),
      )
