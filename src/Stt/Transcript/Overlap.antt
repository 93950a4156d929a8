-- ===== src/Stt/Transcript/Overlap.antt =====
-- Which words two chunks share, and what the joined text is.
use streamcore_server.Base.{
  ==_iff, Bool, Bool-cases, List, Text, [], ap, arith, drop, false, if◌then◌else◌, inl, inr,
  is_empty, leb, length, ltb, ltb→lt, min, refl, suc, sym, true, zero, ℕ, ◌&&◌, ◌++◌, ◌-◌, ◌<◌,
  ◌==◌, ◌∙◌, ◌∷◌, ◌≡◌, ◌≤◌, ◌⊎◌,
}
use mathlib.Core.List.{append-nil}
use streamcore_server.Strings.{Unicode, trim_space, fields, join}
use streamcore_server.Stt.Transcript.{
  agrees, overlaps, overlap_from, longest_overlap, preserves_repeated_spoken_digit_boundary,
  kept_overlap, merge_words, merge_trimmed_chunks, merge_transcript_chunks, space,
}

module _ (equal_fold : Text → Text → Bool) where
  -- k is the greatest number up to `most` of words that the two chunks share.
  pub record Greatest (base next : List Text) (most k : ℕ) : Type 0 where
    pub bounded : k ≤ most
    pub shared : overlaps equal_fold base next k ≡ true
    pub longest : (j : ℕ) → k < j → j ≤ most → overlaps equal_fold base next j ≡ false

  overlaps_none : (base next : List Text) → overlaps equal_fold base next 0 ≡ true
  unfolding overlaps agrees
  overlaps_none base next = refl

  shorter_or_last : (j k : ℕ) → j ≤ suc k → (j ≤ k) ⊎ (j ≡ suc k)
  shorter_or_last j k le = ground arith

  overlap_from-Greatest :
      (most : ℕ) (base next : List Text)
      → Greatest base next most (overlap_from equal_fold most base next)
  unfolding overlap_from
  overlap_from-Greatest zero base next = record {
    bounded = omega arith;
    shared = overlaps_none base next;
    longest = λ j lt le. absurd (omega (arith, lt, le));
  }
  overlap_from-Greatest (suc k) base next =
      elim (Bool-cases (overlaps equal_fold base next (suc k))) [
        | inl e ↦ rw e (record {
          bounded = omega arith;
          shared = e;
          longest = λ j lt le. absurd (omega (arith, lt, le));
        })
        | inr e ↦
            let g = overlap_from-Greatest k base next in
            rw e (record {
              bounded = omega (arith, g.bounded);
              shared = g.shared;
              longest = λ j lt le. elim (shorter_or_last j k le) [
                | inl l ↦ g.longest j lt l
                | inr f ↦ rw f e
              ];
            })
      ]

-- The words of the joined text: those of both chunks, the shared ones once. Where the second
-- chunk starts with the whole first one, the words are the second chunk's.
abbrev pub Joined : List Text → List Text → ℕ → Text → Type 0
Joined base next k text =
    (text ≡ join (base ++ drop k next) space) ⊎ ((k ≡ length base) × (text ≡ join next space))

drop_all : (xs : List Text) → drop (length xs) xs ≡ []
drop_all [] = refl
drop_all (x ∷ xs) = drop_all xs

merge_words-Joined : (base next : List Text) (k : ℕ) → Joined base next k (merge_words base next k)
unfolding merge_words
merge_words-Joined base next k = elim (Bool-cases (k == length next)) [
  | inl e ↦
      let f = ap (λ (n : ℕ). drop n next) ((==_iff k (length next)).0 e) ∙ drop_all next in
      rw e (
        inl
          (ap (λ (ws : List Text). join ws space) (sym (append-nil base) ∙ ap (base ++◌) (sym f))))
  | inr e ↦ elim (Bool-cases (k == length base && leb (length base) (length next))) [
    | inl f ↦ rw (e, f) (inr (ground (arith, ==_iff k (length base)), refl))
    | inr f ↦ rw (e, f) (inl refl)
  ]
]

module _ (u : Unicode) (equal_fold : Text → Text → Bool) where
  merge_trimmed_words :
      (base next : Text)
      → is_empty (fields base) ≡ false
      → is_empty (fields next) ≡ false
      → merge_trimmed_chunks u equal_fold base next
        ≡ merge_words
            (fields base)
            (fields next)
            (kept_overlap u equal_fold (fields base) (fields next))
  unfolding merge_trimmed_chunks fields
  merge_trimmed_words [] next e f = absurd (cc)
  merge_trimmed_words (b ∷ base) [] e f = absurd (cc)
  merge_trimmed_words (b ∷ base) (n ∷ next) e f = rw (e, f) refl

  -- For two chunks that both have words: the overlap is the greatest number of words, compared
  -- without case, that end the first chunk and start the second, and the joined text has the words
  -- of both with the overlap once, unless it is a repeated spoken digit, which stays twice. Where
  -- the second chunk starts with the whole first one, its words are the joined text.
  pub merge_transcript_chunks_joins :
      (base next : Text)
      → is_empty (fields (trim_space base)) ≡ false
      → is_empty (fields (trim_space next)) ≡ false
      → let b = fields (trim_space base) in
        let n = fields (trim_space next) in
        let k = longest_overlap equal_fold b n in
        Greatest equal_fold b n (min (length b) (length n)) k
        × Joined b n
            (if preserves_repeated_spoken_digit_boundary u b n k then 0 else k)
            (merge_transcript_chunks u equal_fold base next)
  unfolding merge_transcript_chunks longest_overlap kept_overlap
  merge_transcript_chunks_joins base next e f =
      let b = fields (trim_space base) in
      let n = fields (trim_space next) in
      (
        overlap_from-Greatest equal_fold (min (length b) (length n)) b n,
        rw (merge_trimmed_words (trim_space base) (trim_space next) e f) (merge_words-Joined b n _),
      )

  agrees_self :
      ((w : Text) → equal_fold w w ≡ true)
      → (ws : List Text) → agrees equal_fold (length ws) ws ws ≡ true
  unfolding agrees
  agrees_self h [] = refl
  agrees_self h (w ∷ ws) = rw (h w, agrees_self h ws) refl

  longest_overlap_self :
      ((w : Text) → equal_fold w w ≡ true)
      → (ws : List Text) → longest_overlap equal_fold ws ws ≡ length ws
  unfolding longest_overlap overlaps
  longest_overlap_self h ws =
      let n = length ws in
      let g = overlap_from-Greatest equal_fold (min n n) ws ws in
      let z : n - n ≡ 0 = omega arith in
      let e : agrees equal_fold n (drop (n - n) ws) ws ≡ true = rw z (agrees_self h ws) in
      elim (Bool-cases (ltb (longest_overlap equal_fold ws ws) n)) [
        | inl lt ↦
            let f = g.longest n (ltb→lt _ _ lt) (omega arith) in absurd (ground (arith, e, f))
        | inr ge ↦ ground (arith, g.bounded)
      ]

  whole_overlap_merges :
      (ws : List Text) → preserves_repeated_spoken_digit_boundary u ws ws (length ws) ≡ false
  unfolding preserves_repeated_spoken_digit_boundary
  whole_overlap_merges ws = ground arith

  merge_words_all : (ws : List Text) → merge_words ws ws (length ws) ≡ join ws space
  unfolding merge_words
  merge_words_all ws = rw ((==_iff (length ws) (length ws)).1 refl) refl

  -- If every word is the same as itself: a chunk that comes twice is taken once.
  pub merge_transcript_chunks_same :
      (base : Text)
      → ((w : Text) → equal_fold w w ≡ true)
      → is_empty (fields (trim_space base)) ≡ false
      → merge_transcript_chunks u equal_fold base base ≡ join (fields (trim_space base)) space
  unfolding merge_transcript_chunks kept_overlap
  merge_transcript_chunks_same base h e =
      let ws = fields (trim_space base) in
      rw
        (
          merge_trimmed_words (trim_space base) (trim_space base) e e,
          longest_overlap_self h ws,
          whole_overlap_merges ws,
        )
        (merge_words_all ws)
