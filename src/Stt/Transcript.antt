-- ===== src/Stt/Transcript.antt =====
-- internal/stt/transcript.go: two final chunks are joined, without the words that both have.
-- strings.EqualFold is a parameter.
pub mod Overlap
use streamcore_server.Base.{
  Bool, List, Text, [], codes, drop, false, get_elem?, if◌then◌else◌, is_empty, leb, length, ltb,
  min, none, not, some, suc, text_eq, true, zero, ℕ, ◌&&◌, ◌++◌, ◌-◌, ◌==◌, ◌||◌, ◌∷◌,
}
use streamcore_server.Strings.{Unicode, trim_space, fields, join, to_lower, member}

digit_words : List Text
digit_words =
    codes "0"
    ∷ codes "1"
    ∷ codes "2"
    ∷ codes "3"
    ∷ codes "4"
    ∷ codes "5"
    ∷ codes "6"
    ∷ codes "7"
    ∷ codes "8"
    ∷ codes "9"
    ∷ codes "zero"
    ∷ codes "oh"
    ∷ codes "o"
    ∷ codes "one"
    ∷ codes "two"
    ∷ codes "three"
    ∷ codes "four"
    ∷ codes "five"
    ∷ codes "six"
    ∷ codes "seven"
    ∷ codes "eight"
    ∷ codes "nine"
    ∷ []

abbrev pub space : Text
space = b' ' ∷ []

-- words[i], where the source has checked that there is one.
word_at : List Text → ℕ → Text
word_at ws i = elim (get_elem? ws i) [ none ↦ [] | some w ↦ w ]

module _ (u : Unicode) where
  unfoldable pub normalize_transcript : Text → Text
  normalize_transcript s = join (fields (to_lower u (trim_space s))) space

  unfoldable pub same_transcript : Text → Text → Bool
  unfolding normalize_transcript
  same_transcript a b = text_eq (normalize_transcript a) (normalize_transcript b)

  unfoldable pub is_spoken_digit_token : Text → Bool
  unfolding digit_words
  is_spoken_digit_token word = member (to_lower u (trim_space word)) digit_words

  unfoldable pub preserves_repeated_spoken_digit_boundary : List Text → List Text → ℕ → Bool
  unfolding word_at is_spoken_digit_token
  preserves_repeated_spoken_digit_boundary base next overlap =
      let word = to_lower u (word_at base (length base - 1)) in
      if not (overlap == 1) || ltb (length base) 2 || ltb (length next) 2
      then false
      else if not (text_eq word (to_lower u (word_at next 0))) || not (is_spoken_digit_token word)
      then false
      else is_spoken_digit_token (word_at base (length base - 2))
        && is_spoken_digit_token (word_at next 1)

module _ (equal_fold : Text → Text → Bool) where
  -- The inner loop: the first k words of two lists are the same but for case.
  unfoldable pub agrees : ℕ → List Text → List Text → Bool
  agrees zero bs ns = true
  agrees (suc k) [] ns = false
  agrees (suc k) (b ∷ bs) [] = false
  agrees (suc k) (b ∷ bs) (n ∷ ns) = equal_fold b n && agrees k bs ns

  -- The last k words of base are the first k of next.
  unfoldable pub overlaps : List Text → List Text → ℕ → Bool
  unfolding agrees
  overlaps base next k = agrees k (drop (length base - k) base) next

  -- The outer loop, from k down.
  unfoldable pub overlap_from : ℕ → List Text → List Text → ℕ
  unfolding overlaps
  overlap_from zero base next = 0
  overlap_from (suc k) base next =
      let rest = overlap_from k base next in if overlaps base next (suc k) then suc k else rest

  unfoldable pub longest_overlap : List Text → List Text → ℕ
  unfolding overlap_from
  longest_overlap base next = overlap_from (min (length base) (length next)) base next

unfoldable pub merge_words : List Text → List Text → ℕ → Text
merge_words base next overlap =
    if overlap == length next
    then join base space
    else if overlap == length base && leb (length base) (length next)
    then join next space
    else join (base ++ drop overlap next) space

module _ (u : Unicode) (equal_fold : Text → Text → Bool) where
  unfoldable pub kept_overlap : List Text → List Text → ℕ
  unfolding longest_overlap preserves_repeated_spoken_digit_boundary
  kept_overlap base next =
      let k = longest_overlap equal_fold base next in
      if preserves_repeated_spoken_digit_boundary u base next k then 0 else k

  unfoldable pub merge_trimmed_chunks : Text → Text → Text
  unfolding merge_words kept_overlap
  merge_trimmed_chunks base next =
      if is_empty base
      then next
      else if is_empty next
      then base
      else if is_empty (fields base)
      then next
      else if is_empty (fields next)
      then base
      else merge_words (fields base) (fields next) (kept_overlap (fields base) (fields next))

  unfoldable pub merge_transcript_chunks : Text → Text → Text
  unfolding merge_trimmed_chunks
  merge_transcript_chunks base next = merge_trimmed_chunks (trim_space base) (trim_space next)
