-- ===== src/Pipeline/Reflex/Matching.antt =====
-- internal/pipeline/partial.go and NormalizePartial of internal/plugin/manifest.go: phrases as runs of
-- whole words. A slice out of range is `none`.
pub mod WholeWords
use streamcore_server.Base.{
  Bool, List, Option, Text, [], drop, false, if◌then◌else◌, length, ltb, max, none, some, suc,
  text_eq, true, ℕ, ◌&&◌, ◌++◌, ◌+◌, ◌==◌, ◌||◌, ◌∷◌,
}
use streamcore_server.Strings.{Unicode, to_lower, trim_space, has_prefix}

module _ (u : Unicode) where
  abbrev is_word_char : ℕ → Bool
  is_word_char r = u.is_letter r || u.is_digit r || r == b'\''

  -- The loop of NormalizePartial; the flag says that a space would be dropped.
  normalize_from : Bool → Text → Text
  normalize_from space [] = []
  normalize_from space (r ∷ s) = elim (is_word_char r) [
    | true ↦ r ∷ normalize_from false s
    | false ↦ elim space [ true ↦ normalize_from true s | false ↦ b' ' ∷ normalize_from true s ]
  ]

  unfoldable pub normalize_partial : Text → Text
  unfolding normalize_from
  normalize_partial text = trim_space (normalize_from true (to_lower u text))

-- text[end] == ' ', or the end of the text.
abbrev pub at_end : Text → Bool
at_end [] = true
at_end (c ∷ s) = c == b' '

-- The inner loop of containsPhrase over what is left of the text: the flag says that a word can
-- start here. Past the end of the text, the loop has returned, unless the phrase is empty.
unfoldable pub finds : Bool → Text → Text → Option Bool
unfolding has_prefix
finds starts [] phrase =
    if has_prefix [] phrase then (if starts then some true else none) else some false
finds starts (c ∷ s) phrase =
    let rest = finds (c == b' ') s phrase in
    if has_prefix (c ∷ s) phrase && starts && at_end (drop (length phrase) (c ∷ s))
    then some true
    else rest

unfoldable pub contains_phrase : Text → List Text → Option Bool
unfolding finds
contains_phrase text [] = some false
contains_phrase text (phrase ∷ phrases) =
    let rest = contains_phrase text phrases in
    elim (finds true text phrase) [ none ↦ none | some true ↦ some true | some false ↦ rest ]

unfoldable pub has_prefix_phrase : Text → List Text → Bool
unfolding has_prefix
has_prefix_phrase text [] = false
has_prefix_phrase text (phrase ∷ phrases) =
    text_eq text phrase || has_prefix text (phrase ++ (b' ' ∷ [])) || has_prefix_phrase text phrases

-- The map of captureAfterAnchor, from a start to the end of the longest anchor there.
abbrev pub end_at : ℕ → List (ℕ × ℕ) → ℕ
end_at start [] = 0
end_at start ((s, e) ∷ m) = if s == start then e else end_at start m

abbrev set_end : ℕ → ℕ → List (ℕ × ℕ) → List (ℕ × ℕ)
set_end start end [] = (start, end) ∷ []
set_end start end ((s, e) ∷ m) =
    if s == start then (start, end) ∷ m else (s, e) ∷ set_end start end m

unfoldable pub raise_end : ℕ → ℕ → List (ℕ × ℕ) → List (ℕ × ℕ)
raise_end start end m = if ltb (end_at start m) end then set_end start end m else m

-- The loop for one anchor, from an offset on.
unfoldable pub mark : Bool → ℕ → Text → Text → List (ℕ × ℕ) → Option (List (ℕ × ℕ))
unfolding has_prefix raise_end
mark starts offset [] anchor m = if has_prefix [] anchor then none else some m
mark starts offset (c ∷ s) anchor m = mark (c == b' ') (suc offset) s anchor (
    if has_prefix (c ∷ s) anchor && starts && at_end (drop (length anchor) (c ∷ s))
    then raise_end offset (offset + length anchor) m
    else m)

unfoldable pub mark_all : Text → List Text → List (ℕ × ℕ) → Option (List (ℕ × ℕ))
unfolding mark
mark_all text [] m = some m
mark_all text (anchor ∷ anchors) m = elim (mark true 0 text anchor m) [
  | none ↦ none
  | some m' ↦ mark_all text anchors m'
]

abbrev pub last_end : List (ℕ × ℕ) → ℕ
last_end [] = 0
last_end ((s, e) ∷ m) = max e (last_end m)

-- What follows the last anchor, and how many there are: `none` is a panic, `some none` is not ok.
unfoldable pub capture_after_anchor : Text → List Text → Option (Option (Text × ℕ))
unfolding mark_all
capture_after_anchor text anchors = elim (mark_all text anchors []) [
  | none ↦ none
  | some [] ↦ some none
  | some ((s, e) ∷ m) ↦ some (some (trim_space (drop (max e (last_end m)) text), suc (length m)))
]
