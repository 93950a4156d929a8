-- ===== src/Strings/Search.antt =====
-- strings.HasPrefix and strings.Contains as facts about concatenation.
use streamcore_server.Base.{
  Bool-cases, Text, [], ap, arith, inl, inr, refl, sym, true, ◌++◌, ◌↔◌, ◌∙◌, ◌∷◌, ◌≡◌,
}
use mathlib.Core.List.{append_assoc, append-nil}
use streamcore_server.Strings.{has_prefix, contains}

-- One text stands in another.
abbrev pub Within : Text → Text → Type 0
Within s p = (a : Text) × (b : Text) × (s ≡ a ++ (p ++ b))

pub has_prefix-append : (p b : Text) → has_prefix (p ++ b) p ≡ true
unfolding has_prefix
has_prefix-append [] b = refl
has_prefix-append (c ∷ p) b = ground (arith, has_prefix-append p b)

pub has_prefix_rest : (s p : Text) → has_prefix s p ≡ true → (b : Text) × (s ≡ p ++ b)
unfolding has_prefix
has_prefix_rest s [] e = (s, refl)
has_prefix_rest [] (d ∷ p) e = absurd (cc)
has_prefix_rest (c ∷ s) (d ∷ p) e =
    let (b, f) = has_prefix_rest s p (ground arith) in (b, ground (arith, f))

pub contains-append : (a p b : Text) → contains (a ++ (p ++ b)) p ≡ true
unfolding contains
contains-append [] [] [] = has_prefix-append [] []
contains-append [] [] (c ∷ b) = refl
contains-append [] (d ∷ p) b = rw (has_prefix-append (d ∷ p) b)
contains-append (c ∷ a) p b = ground (arith, contains-append a p b)

contains-Within : (s p : Text) → contains s p ≡ true → Within s p
unfolding contains
contains-Within [] p e = let (b, f) = has_prefix_rest [] p e in ([], b, f)
contains-Within (c ∷ s) p e = elim (Bool-cases (has_prefix (c ∷ s) p)) [
  | inl h ↦ let (b, f) = has_prefix_rest (c ∷ s) p h in ([], b, f)
  | inr h ↦ let (a, b, f) = contains-Within s p (ground arith) in (c ∷ a, b, ap (◌∷◌ c) f)
]

pub contains_iff : (s p : Text) → (contains s p ≡ true) ↔ Within s p
contains_iff s p = (contains-Within s p, λ w. rw (w.2) (contains-append w.0 p w.1))

pub contains_self : (s : Text) → contains s s ≡ true
contains_self s = (contains_iff s s).1 ([], [], sym (append-nil s))

pub contains_trans :
    (s t p : Text) → contains s t ≡ true → contains t p ≡ true → contains s p ≡ true
contains_trans s t p e f =
    let (a, b, g) = (contains_iff s t).0 e in
    let (c, d, h) = (contains_iff t p).0 f in
    (contains_iff s p).1
      (a ++ c, d ++ b, g ∙ (ap (λ (x : Text). a ++ (x ++ b)) h ∙ simp append_assoc))
