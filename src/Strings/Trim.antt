-- ===== src/Strings/Trim.antt =====
-- strings.TrimSpace.
use streamcore_server.Base.{
  Bool-cases, Text, [], ap, arith, false, if-either, inl, inr, is_empty, refl, subst, sym, ◌&&◌,
  ◌++◌, ◌∙◌, ◌∷◌, ◌≡◌,
}
use streamcore_server.Strings.{is_space, trim_space, trim_left, trim_right_by}

abbrev pub IsTrimmed : Text → Type 0
IsTrimmed t = trim_space t ≡ t

trim_right_again :
    (s : Text) → trim_right_by is_space (trim_right_by is_space s) ≡ trim_right_by is_space s
unfolding trim_right_by
trim_right_again [] = refl
trim_right_again (c ∷ s) = ground (arith, trim_right_again s)

-- What is left starts with no space.
abbrev Starts : Text → Type 0
Starts [] = Unit {0}
Starts (c ∷ _) = is_space c ≡ false

trim_left-Starts : (s : Text) → Starts (trim_left s)
unfolding trim_left
trim_left-Starts [] = tt
trim_left-Starts (c ∷ s) = elim (Bool-cases (is_space c)) [
  | inl e ↦ rw e (trim_left-Starts s)
  | inr e ↦ rw e e
]

trim_right-Starts : (s : Text) → Starts s → Starts (trim_right_by is_space s)
unfolding trim_right_by
trim_right-Starts [] h = tt
trim_right-Starts (c ∷ s) h =
    rw h (if-either Starts (is_empty (trim_right_by is_space s) && false) tt h)

Starts-trim_left : (s : Text) → Starts s → trim_left s ≡ s
unfolding trim_left
Starts-trim_left [] h = refl
Starts-trim_left (c ∷ s) h = rw h

pub trim_space-IsTrimmed : (s : Text) → IsTrimmed (trim_space s)
unfolding trim_space
trim_space-IsTrimmed s =
    ap (trim_right_by is_space)
      (Starts-trim_left _ (trim_right-Starts (trim_left s) (trim_left-Starts s)))
    ∙ trim_right_again (trim_left s)

IsTrimmed-Starts : (s : Text) → IsTrimmed s → Starts s
unfolding trim_space
IsTrimmed-Starts s h = subst Starts (h) (trim_right-Starts (trim_left s) (trim_left-Starts s))

IsTrimmed-right : (s : Text) → IsTrimmed s → trim_right_by is_space s ≡ s
unfolding trim_space
IsTrimmed-right s h =
    ap (trim_right_by is_space) (sym (Starts-trim_left s (IsTrimmed-Starts s h))) ∙ h

append_given : (s t : Text) → is_empty t ≡ false → is_empty (s ++ t) ≡ false
append_given [] t h = h
append_given (c ∷ s) t h = refl

trim_right-append :
    (s t : Text)
    → trim_right_by is_space t ≡ t
    → is_empty t ≡ false
    → trim_right_by is_space (s ++ t) ≡ s ++ t
unfolding trim_right_by
trim_right-append [] t e h = e
trim_right-append (c ∷ s) t e h = rw (trim_right-append s t e h) (rw (append_given s t h) refl)

Starts-append : (s t : Text) → Starts s → is_empty s ≡ false → Starts (s ++ t)
Starts-append [] t h e = absurd (cc)
Starts-append (c ∷ s) t h e = h

-- Two trimmed texts with a space between them.
pub spaced-IsTrimmed :
    (s t : Text)
    → IsTrimmed s
    → IsTrimmed t
    → is_empty s ≡ false
    → is_empty t ≡ false
    → IsTrimmed (s ++ (b' ' ∷ t))
unfolding trim_space
spaced-IsTrimmed s t h k a b =
    ap (trim_right_by is_space)
      (Starts-trim_left _ (Starts-append s (b' ' ∷ t) (IsTrimmed-Starts s h) a))
    ∙ trim_right-append s (b' ' ∷ t) (trim_right-append (b' ' ∷ []) t (IsTrimmed-right t k) b) refl
