-- ===== src/Pipeline/Reflex/Matching/WholeWords.antt =====
-- What the phrase matcher finds.
use streamcore_server.Base.{
  Bool, Bool-cases, List, Option, Text, [], ap, arith, drop, false, if-either, if◌then◌else◌, inl,
  inr, is_empty, is_some, length, none, not, refl, some, subst, true, ℕ, ◌&&◌, ◌++◌, ◌==◌, ◌↔◌, ◌∙◌,
  ◌∷◌, ◌≡◌, ◌⊎◌,
}
use streamcore_server.Strings.{has_prefix}
use streamcore_server.Strings.Search.{has_prefix-append, has_prefix_rest}
use streamcore_server.Pipeline.Reflex.Matching.{finds, contains_phrase, at_end}

-- A word can start after a text.
abbrev pub opens : Bool → Text → Bool
opens starts [] = starts
opens starts (c ∷ s) = opens (c == b' ') s

-- A phrase stands in a text, between spaces or the ends of the text.
abbrev pub WholeWord : Bool → Text → Text → Type 0
WholeWord starts text phrase =
    (a : Text) × (b : Text) × (text ≡ a ++ (phrase ++ b))
    × (opens starts a ≡ true)
    × (at_end b ≡ true)

drop-append : (p b : Text) → drop (length p) (p ++ b) ≡ b
drop-append [] b = refl
drop-append (c ∷ p) b = drop-append p b

abbrev here : Bool → ℕ → Text → Text → Bool
here starts c s phrase =
    has_prefix (c ∷ s) phrase && starts && at_end (drop (length phrase) (c ∷ s))

all_three : (x y z : Bool) → (x && y && z) ≡ true → (x ≡ true) × (y ≡ true) × (z ≡ true)
all_three true true true e = (refl, refl, refl)
all_three true true false e = absurd (cc)
all_three true false z e = absurd (cc)
all_three false y z e = absurd (cc)

found_now : (x : Bool) (rest : Option Bool) → x ≡ true → (if x then some true else rest) ≡ some true
found_now x rest e = rw e refl

found_later :
    (x : Bool) (rest : Option Bool) → rest ≡ some true → (if x then some true else rest) ≡ some true
found_later true rest e = refl
found_later false rest e = e

not_now :
    (x : Bool) (rest : Option Bool)
    → (if x then some true else rest) ≡ some true
    → x ≡ false
    → rest ≡ some true
not_now true rest e f = absurd (cc)
not_now false rest e f = e

finds_at_end : (starts : Bool) (p : ℕ) (ps : Text) → finds starts [] (p ∷ ps) ≡ some false
unfolding finds has_prefix
finds_at_end starts p ps = refl

here_now :
    (starts : Bool) (phrase b : Text)
    → starts ≡ true
    → at_end b ≡ true
    → (has_prefix (phrase ++ b) phrase && starts && at_end (drop (length phrase) (phrase ++ b)))
      ≡ true
here_now starts phrase b o t = rw (has_prefix-append phrase b, drop-append phrase b, o, t) refl

finds_sound :
    (starts : Bool) (s phrase : Text)
    → is_empty phrase ≡ false
    → finds starts s phrase ≡ some true
    → WholeWord starts s phrase
unfolding finds
finds_sound starts [] [] ne e = absurd (cc)
finds_sound starts [] (p ∷ ps) ne e = absurd (ground (arith, e, finds_at_end starts p ps))
finds_sound starts (c ∷ s) phrase ne e = elim (Bool-cases (here starts c s phrase)) [
  | inl h ↦
      let (pre, o, t) = all_three _ _ _ h in
      let (b, f) = has_prefix_rest (c ∷ s) phrase pre in
      let g = ap (drop (length phrase)) f ∙ drop-append phrase b in
      ([], b, f, o, subst (λ (x : Text). at_end x ≡ true) g t)
  | inr h ↦
      let (a, b, f, o, t) = finds_sound (c == b' ') s phrase ne (not_now _ _ e h) in
      (c ∷ a, b, ap (c ∷◌) f, o, t)
]

finds_complete :
    (starts : Bool) (a phrase b : Text)
    → is_empty phrase ≡ false
    → opens starts a ≡ true
    → at_end b ≡ true
    → finds starts (a ++ (phrase ++ b)) phrase ≡ some true
unfolding finds
finds_complete starts [] [] b ne o t = absurd (cc)
finds_complete starts [] (p ∷ ps) b ne o t = found_now _ _ (here_now starts (p ∷ ps) b o t)
finds_complete starts (c ∷ a) phrase b ne o t =
    found_later (here starts c (a ++ (phrase ++ b)) phrase) _
      (finds_complete (c == b' ') a phrase b ne o t)

finds_total :
    (starts : Bool) (s phrase : Text)
    → is_empty phrase ≡ false
    → is_some (finds starts s phrase) ≡ true
unfolding finds
finds_total starts [] [] ne = absurd (cc)
finds_total starts [] (p ∷ ps) ne = ap is_some (finds_at_end starts p ps)
finds_total starts (c ∷ s) phrase ne =
    if-either (λ (o : Option Bool). is_some o ≡ true) (here starts c s phrase) refl
      (finds_total (c == b' ') s phrase ne)

-- The empty phrase runs past the end of a text whose words are single spaces apart.
abbrev pub single_spaced : Bool → Text → Bool
single_spaced starts [] = not starts
single_spaced starts (c ∷ s) = not (starts && c == b' ') && single_spaced (c == b' ') s

finds_empty : (starts : Bool) (s : Text) → single_spaced starts s ≡ true → finds starts s [] ≡ none
unfolding finds has_prefix
finds_empty true [] h = absurd (cc)
finds_empty false [] h = refl
finds_empty starts (c ∷ s) h =
    let (f, g, _) =
      all_three (not (starts && c == b' ')) (single_spaced (c == b' ') s) true (rw h refl) in
    ground (arith, finds_empty (c == b' ') s g, f)

abbrev pub AnyWhole : Text → List Text → Type 0
AnyWhole text [] = ⊥
AnyWhole text (p ∷ ps) = WholeWord true text p ⊎ AnyWhole text ps

abbrev pub no_empty : List Text → Bool
no_empty [] = true
no_empty (p ∷ ps) = not (is_empty p) && no_empty ps

contains_phrase_cases :
    (o : Option Bool) (rest : Option Bool)
    → is_some o ≡ true
    → is_some rest ≡ true
    → is_some (elim o [ none ↦ none | some true ↦ some true | some false ↦ rest ]) ≡ true
contains_phrase_cases none rest h k = absurd (cc)
contains_phrase_cases (some true) rest h k = refl
contains_phrase_cases (some false) rest h k = k

contains_phrase_total :
    (text : Text) (ps : List Text) → no_empty ps ≡ true → is_some (contains_phrase text ps) ≡ true
unfolding contains_phrase
contains_phrase_total text [] h = refl
contains_phrase_total text (p ∷ ps) h =
    contains_phrase_cases (finds true text p) _ (finds_total true text p (ground (arith, h)))
      (contains_phrase_total text ps (ground (arith, h)))

first_or_rest :
    (o : Option Bool) (rest : Option Bool)
    → elim o [ none ↦ none | some true ↦ some true | some false ↦ rest ] ≡ some true
    → (o ≡ some true) ⊎ (rest ≡ some true)
first_or_rest none rest e = absurd (cc)
first_or_rest (some true) rest e = inl refl
first_or_rest (some false) rest e = inr e

contains_phrase_sound :
    (text : Text) (ps : List Text)
    → no_empty ps ≡ true
    → contains_phrase text ps ≡ some true
    → AnyWhole text ps
unfolding contains_phrase
contains_phrase_sound text [] h e = absurd (cc)
contains_phrase_sound text (p ∷ ps) h e = elim (first_or_rest (finds true text p) _ e) [
  | inl f ↦ inl (finds_sound true text p (ground (arith, h)) f)
  | inr f ↦ inr (contains_phrase_sound text ps (ground (arith, h)) f)
]

both_false :
    (o rest : Option Bool)
    → elim o [ none ↦ none | some true ↦ some true | some false ↦ rest ] ≡ some false
    → (o ≡ some false) × (rest ≡ some false)
both_false none rest e = absurd (cc)
both_false (some true) rest e = absurd (cc)
both_false (some false) rest e = (refl, e)

later_true :
    (o rest : Option Bool)
    → is_some o ≡ true
    → rest ≡ some true
    → elim o [ none ↦ none | some true ↦ some true | some false ↦ rest ] ≡ some true
later_true none rest h e = absurd (cc)
later_true (some true) rest h e = refl
later_true (some false) rest h e = e

contains_phrase_complete :
    (text : Text) (ps : List Text)
    → no_empty ps ≡ true
    → AnyWhole text ps
    → contains_phrase text ps ≡ some true
unfolding contains_phrase
contains_phrase_complete text [] h k = elim k [ ]
contains_phrase_complete text (p ∷ ps) h (inl (a, b, f, o, t)) =
    let ne : is_empty p ≡ false = ground (arith, h) in
    rw (contains_phrase, ap (λ (x : Text). finds true x p) f ∙ finds_complete true a p b ne o t)
      refl
contains_phrase_complete text (p ∷ ps) h (inr k) =
    later_true (finds true text p) _ (finds_total true text p (ground (arith, h)))
      (contains_phrase_complete text ps (ground (arith, h)) k)

-- If no phrase is empty, the matcher does not run past the text, and it finds a phrase exactly if
-- one stands in the text between spaces or the ends of the text.
pub contains_phrase_decides :
    (text : Text) (ps : List Text)
    → no_empty ps ≡ true
    → (is_some (contains_phrase text ps) ≡ true)
      × ((contains_phrase text ps ≡ some true) ↔ AnyWhole text ps)
contains_phrase_decides text ps h = (
  contains_phrase_total text ps h,
  (contains_phrase_sound text ps h, contains_phrase_complete text ps h),
)

-- A phrase that is empty makes the matcher slice past the end of every text whose words are single
-- spaces apart, if no phrase before it stands in the text.
pub contains_phrase_panics :
    (text : Text) (before after : List Text)
    → single_spaced true text ≡ true
    → no_empty before ≡ true
    → contains_phrase text before ≡ some false
    → contains_phrase text (before ++ ([] ∷ after)) ≡ none
unfolding contains_phrase
contains_phrase_panics text [] after h n e = rw (contains_phrase, finds_empty true text h) refl
contains_phrase_panics text (p ∷ before) after h n e =
    let (f, g) = both_false (finds true text p) _ e in
    rw (contains_phrase, f) (contains_phrase_panics text before after h (ground (arith, n)) g)
