-- ===== src/Vad/EchoGuard/Cells.antt =====
-- The places of the ring that are in use, as a list, the oldest frame first.
use streamcore_server.Base.{
  Bool-cases, List, [], ap, arith, inl, inr, length, ltb, ltb→lt, refl, subst, suc, sym, zero, ℕ,
  ◌%◌, ◌++◌, ◌+◌, ◌-◌, ◌<◌, ◌∙◌, ◌∷◌, ◌≡◌, ◌≢◌, ◌≤◌,
}
use native.Mathlib.Nat.{mod-mod, suc-mod, mod-lt, mod-eq_of_lt, mod-eq-sub-mod, mod-add-mod}
use streamcore_server.Vad.{Floats}
use streamcore_server.Vad.EchoGuard.{Sample, Guard, read, write, advance, put}

mod_apart : (n a d : ℕ) → 0 < d → d < n → a % n ≢ (a + d) % n
mod_apart n a d lo hi e =
    let r = a % n in
    let lt : r < n = mod-lt a (omega (arith, lo, hi)) in
    let f = e ∙ sym (mod-add-mod a n d) in
    elim (Bool-cases (ltb (r + d) n)) [
      | inl l ↦ omega (arith, f ∙ mod-eq_of_lt (ltb→lt _ _ l), lo)
      | inr l ↦
          let ge : n ≤ r + d = ground arith in
          let small : r + d - n < n = omega (arith, lt, hi) in
          omega (arith, f ∙ mod-eq-sub-mod ge ∙ mod-eq_of_lt small, ge, hi)
    ]

module _ (fl : Floats) where
  pub length-write :
      (buf : List (Sample fl)) (i : ℕ) (s : Sample fl) → length (write fl buf i s) ≡ length buf
  length-write [] i s = refl
  length-write (x ∷ xs) zero s = refl
  length-write (x ∷ xs) (suc i) s = ap suc (length-write xs i s)

  read-write_self :
      (buf : List (Sample fl)) (i : ℕ) (s : Sample fl)
      → i < length buf
      → read fl (write fl buf i s) i ≡ s
  read-write_self [] i s lt = absurd (omega (arith, lt))
  read-write_self (x ∷ xs) zero s lt = refl
  read-write_self (x ∷ xs) (suc i) s lt = read-write_self xs i s (omega (arith, lt))

  read-write_other :
      (buf : List (Sample fl)) (i j : ℕ) (s : Sample fl)
      → j ≢ i
      → read fl (write fl buf i s) j ≡ read fl buf j
  read-write_other [] i j s ne = refl
  read-write_other (x ∷ xs) zero zero s ne = absurd (ne refl)
  read-write_other (x ∷ xs) zero (suc j) s ne = refl
  read-write_other (x ∷ xs) (suc i) zero s ne = refl
  read-write_other (x ∷ xs) (suc i) (suc j) s ne = read-write_other xs i j s (λ e. ne (ap suc e))

  unfoldable pub cells : List (Sample fl) → ℕ → ℕ → List (Sample fl)
  cells buf s zero = []
  cells buf s (suc k) = read fl buf (s % length buf) ∷ cells buf (suc s) k

  -- The frames in the ring, the oldest first.
  unfoldable pub live : Guard fl → List (Sample fl)
  unfolding cells
  live g = cells g.buf g.start g.count

  cells_mod : (buf : List (Sample fl)) (s k : ℕ) → cells buf (s % length buf) k ≡ cells buf s k
  unfolding cells
  cells_mod buf s zero = refl
  cells_mod buf s (suc k) =
      let n = length buf in
      let e =
        sym (cells_mod buf (suc (s % n)) k)
        ∙ (ap (λ (i : ℕ). cells buf i k) (sym (suc-mod s n)) ∙ cells_mod buf (suc s) k) in
      rw (mod-mod s n) (ap (read fl buf (s % n) ∷◌) e)

  cells_last :
      (buf : List (Sample fl)) (s k : ℕ)
      → cells buf s (suc k) ≡ cells buf s k ++ (read fl buf ((s + k) % length buf) ∷ [])
  unfolding cells
  cells_last buf s zero =
      let e : s ≡ s + 0 = omega arith in ap (λ (i : ℕ). read fl buf (i % length buf) ∷ []) e
  cells_last buf s (suc k) =
      let e : suc s + k ≡ s + suc k = omega arith in
      ap (read fl buf (s % length buf) ∷◌) (
        cells_last buf (suc s) k
        ∙ ap (λ (i : ℕ). cells buf (suc s) k ++ (read fl buf (i % length buf) ∷ [])) e)

  cells-write :
      (buf : List (Sample fl)) (s k p : ℕ) (x : Sample fl)
      → ((i : ℕ) → i < k → (s + i) % length buf ≢ p)
      → cells (write fl buf p x) s k ≡ cells buf s k
  unfolding cells
  cells-write buf s zero p x h = refl
  cells-write buf s (suc k) p x h =
      let n = length buf in
      let head : s % n ≢ p = subst (λ (i : ℕ). i % n ≢ p) (omega arith) (h 0 (omega arith)) in
      let tail : (i : ℕ) → i < k → (suc s + i) % n ≢ p =
        λ i lt. subst (λ (j : ℕ). j % n ≢ p) (omega arith) (h (suc i) (omega (arith, lt))) in
      rw
        (
          length-write buf p x,
          read-write_other buf p (s % n) x head,
          cells-write buf (suc s) k p x tail,
        )
        refl

  -- The places of the ring are in use from `start` on, `count` of them.
  pub record Fits (g : Guard fl) : Type 0 where
    pub start_below : g.start < length g.buf
    pub count_within : g.count ≤ length g.buf

  pub put_live :
      (g : Guard fl) (s : Sample fl)
      → Fits g
      → g.count < length g.buf
      → Fits (put fl g s) × (live (put fl g s) ≡ live g ++ (s ∷ []))
  unfolding put live
  put_live g s h lt =
      let n = length g.buf in
      let p = (g.start + g.count) % n in
      let buf = write fl g.buf p s in
      let len = length-write g.buf p s in
      let c : g.count + 1 ≡ suc g.count = omega arith in
      let apart : (i : ℕ) → i < g.count → (g.start + i) % n ≢ p = λ i l e.
        mod_apart n (g.start + i) (g.count - i) (omega (arith, l)) (omega (arith, l, lt))
          (e ∙ ap (◌% n) (omega (arith, l))) in
      let new : read fl buf ((g.start + g.count) % length buf) ≡ s =
        rw len (read-write_self g.buf p s (mod-lt (g.start + g.count) (omega (arith, lt)))) in
      (
        record { start_below = rw len h.start_below; count_within = rw len (omega (arith, lt)) },
        ap (cells buf g.start) c
            ∙ (cells_last buf g.start g.count
                ∙ (ap (λ (x : Sample fl). cells buf g.start g.count ++ (x ∷ [])) new
                    ∙ ap (λ (xs : List (Sample fl)). xs ++ (s ∷ []))
                        (cells-write g.buf g.start g.count p s apart))),
      )

  pub advance_live :
      (g : Guard fl) (k : ℕ)
      → Fits g
      → g.count ≡ suc k
      → Fits (advance fl g)
        × (live g ≡ read fl g.buf g.start ∷ live (advance fl g))
        × ((advance fl g).count ≡ k)
  unfolding advance live cells
  advance_live g k h e =
      let n = length g.buf in
      let small : g.start % n ≡ g.start = mod-eq_of_lt h.start_below in
      let s : suc g.start ≡ g.start + 1 = omega arith in
      let f : g.count - 1 ≡ k = omega (arith, e) in
      (
        record {
          start_below = mod-lt (g.start + 1) (omega (arith, h.start_below));
          count_within = omega (arith, h.count_within);
        },
        rw e (
            rw small (
              ap (read fl g.buf g.start ∷◌) (
                ap (λ (i : ℕ). cells g.buf i k) s
                ∙ (sym (cells_mod g.buf (g.start + 1) k)
                    ∙ ap (cells g.buf ((g.start + 1) % n)) (omega arith))))),
        f,
      )

  pub live_none : (g : Guard fl) → g.count ≡ 0 → live g ≡ []
  unfolding live cells
  live_none g e = rw e refl

  pub length-cells : (buf : List (Sample fl)) (s k : ℕ) → length (cells buf s k) ≡ k
  unfolding cells
  length-cells buf s zero = refl
  length-cells buf s (suc k) = ap suc (length-cells buf (suc s) k)
