-- ===== src/Ice/Offer.antt =====
-- The offer that a restart synthesises, as a whole.
use streamcore_server.Base.{
  Bool, List, Text, [], ap, arith, codes, false, keep, length, ltb, map, refl, some, text_eq,
  text_eq_self, true, ℕ, ◌%◌, ◌&&◌, ◌^◌, ◌≤◌, ◌++◌, ◌+◌, ◌∙◌, ◌∷◌, ◌≡◌,
}
use streamcore_server.Strings.{fields, join, trim_prefix, has_prefix}
use streamcore_server.Strings.Fields.{all_words, fields-join}
use streamcore_server.Ice.Decimal.{parse_uint, format_uint}
use streamcore_server.Ice.{
  Fragment, blank, kind_of, read_lines, rewrite_from, bump_sdp_origin, set_version, third,
  ufrag_prefix, pwd_prefix, origin, candidate_line, end_line, candidate_block, candidate_lines,
  Kind, media, end_of_candidates, mid_line, other_line,
}
use streamcore_server.Ice.Restart.{
  read_lines-rewrite_from, has_kind, bump-kind, kind_of-ufrag, kind_of-candidate, is_ufrag, is_pwd,
  kind_of-pwd, kind_of-end,
}

-- The lines of an offer that a restart passes on as they are.
abbrev pub is_kept : Kind → Bool
is_kept media = true
is_kept mid_line = true
is_kept other_line = true
is_kept _ = false

abbrev pub kept_lines : List Text → List Text
kept_lines ls = keep (λ l. is_kept (kind_of l)) ls

keep-append {ℓ} :
    {A : Type ℓ} (p : A → Bool) (xs ys : List A) → keep p (xs ++ ys) ≡ keep p xs ++ keep p ys
keep-append p [] ys = refl
keep-append p (x ∷ xs) ys = ground (arith, keep-append p xs ys)

kept-candidate_lines : (cs : List Text) → kept_lines (candidate_lines cs) ≡ []
unfolding candidate_lines
kept-candidate_lines [] = refl
kept-candidate_lines (c ∷ cs) = ground (arith, kept-candidate_lines cs, kind_of-candidate c)

kept-candidate_block : (cs : List Text) → kept_lines (candidate_block cs) ≡ []
unfolding candidate_block
kept-candidate_block [] = refl
kept-candidate_block (c ∷ cs) =
    keep-append (λ l. is_kept (kind_of l)) (candidate_lines (c ∷ cs)) (end_of_candidates ∷ [])
    ∙ ground (arith, kept-candidate_lines (c ∷ cs), kind_of-end)

kept-rewrite_from :
    (f : Fragment) (seen : ℕ) (inserted : Bool) (ls : List Text)
    → kept_lines (rewrite_from f seen inserted ls) ≡ kept_lines ls
unfolding rewrite_from
kept-rewrite_from f seen inserted [] = ground (arith, kept-candidate_block f.candidates)
kept-rewrite_from f seen inserted (l ∷ ls) = ground (
  arith,
  kept-rewrite_from f seen inserted ls,
  kept-rewrite_from f (seen + 1) inserted ls,
  kept-rewrite_from f (seen + 1) true ls,
  kept-candidate_block f.candidates,
  keep-append (λ (x : Text). is_kept (kind_of x)) (candidate_block f.candidates)
      (l ∷ rewrite_from f (seen + 1) true ls),
  bump-kind l,
  kind_of-ufrag f.ufrag,
  kind_of-pwd f.pwd,
)

abbrev is_origin : Kind → Bool
is_origin origin = true
is_origin _ = false

abbrev pub origin_lines : List Text → List Text
origin_lines ls = keep (λ l. is_origin (kind_of l)) ls

abbrev pub ufrag_lines : List Text → List Text
ufrag_lines ls = keep (λ l. is_ufrag (kind_of l)) ls

abbrev pub pwd_lines : List Text → List Text
pwd_lines ls = keep (λ l. is_pwd (kind_of l)) ls

-- Every line is this one.
abbrev pub all_are : Text → List Text → Bool
all_are t [] = true
all_are t (l ∷ ls) = text_eq l t && all_are t ls

-- No line of the block is of these kinds.
block_free :
    (p : Kind → Bool) (cs : List Text)
    → p candidate_line ≡ false
    → p end_line ≡ false
    → keep (λ l. p (kind_of l)) (candidate_block cs) ≡ []
unfolding candidate_block
block_free p [] a b = refl
block_free p (c ∷ cs) a b =
    keep-append (λ l. p (kind_of l)) (candidate_lines (c ∷ cs)) (end_of_candidates ∷ [])
    ∙ ground (arith, lines_free p (c ∷ cs) a, kind_of-end, b)
  where
    lines_free :
        (p : Kind → Bool) (cs : List Text)
        → p candidate_line ≡ false
        → keep (λ l. p (kind_of l)) (candidate_lines cs) ≡ []
    lines_free p [] a = refl
    lines_free p (c ∷ cs) a = ground (arith, lines_free p cs a, kind_of-candidate c, a)

origin-rewrite_from :
    (f : Fragment) (seen : ℕ) (inserted : Bool) (ls : List Text)
    → origin_lines (rewrite_from f seen inserted ls) ≡ map bump_sdp_origin (origin_lines ls)
unfolding rewrite_from
origin-rewrite_from f seen inserted [] = ground (arith, block_free is_origin f.candidates refl refl)
origin-rewrite_from f seen inserted (l ∷ ls) = ground (
  arith,
  origin-rewrite_from f seen inserted ls,
  origin-rewrite_from f (seen + 1) inserted ls,
  origin-rewrite_from f (seen + 1) true ls,
  block_free is_origin f.candidates refl refl,
  keep-append (λ (x : Text). is_origin (kind_of x)) (candidate_block f.candidates)
      (l ∷ rewrite_from f (seen + 1) true ls),
  bump-kind l,
  kind_of-ufrag f.ufrag,
  kind_of-pwd f.pwd,
)

ufrag-rewrite_from :
    (f : Fragment) (seen : ℕ) (inserted : Bool) (ls : List Text)
    → all_are (ufrag_prefix ++ f.ufrag) (ufrag_lines (rewrite_from f seen inserted ls)) ≡ true
unfolding rewrite_from
ufrag-rewrite_from f seen inserted [] = ground (arith, block_free is_ufrag f.candidates refl refl)
ufrag-rewrite_from f seen inserted (l ∷ ls) = ground (
  arith,
  ufrag-rewrite_from f seen inserted ls,
  ufrag-rewrite_from f (seen + 1) inserted ls,
  ufrag-rewrite_from f (seen + 1) true ls,
  block_free is_ufrag f.candidates refl refl,
  keep-append (λ (x : Text). is_ufrag (kind_of x)) (candidate_block f.candidates)
      (l ∷ rewrite_from f (seen + 1) true ls),
  bump-kind l,
  kind_of-ufrag f.ufrag,
  kind_of-pwd f.pwd,
  text_eq_self (ufrag_prefix ++ f.ufrag),
)

pwd-rewrite_from :
    (f : Fragment) (seen : ℕ) (inserted : Bool) (ls : List Text)
    → all_are (pwd_prefix ++ f.pwd) (pwd_lines (rewrite_from f seen inserted ls)) ≡ true
unfolding rewrite_from
pwd-rewrite_from f seen inserted [] = ground (arith, block_free is_pwd f.candidates refl refl)
pwd-rewrite_from f seen inserted (l ∷ ls) = ground (
  arith,
  pwd-rewrite_from f seen inserted ls,
  pwd-rewrite_from f (seen + 1) inserted ls,
  pwd-rewrite_from f (seen + 1) true ls,
  block_free is_pwd f.candidates refl refl,
  keep-append (λ (x : Text). is_pwd (kind_of x)) (candidate_block f.candidates)
      (l ∷ rewrite_from f (seen + 1) true ls),
  bump-kind l,
  kind_of-ufrag f.ufrag,
  kind_of-pwd f.pwd,
  text_eq_self (pwd_prefix ++ f.pwd),
)

-- An o= line of six words or more.
abbrev pub origin_line : Text → Text → Text → List Text → Text
origin_line name session version rest =
    codes "o=" ++ join (name ∷ session ∷ version ∷ rest) (codes " ")

abbrev space : Text
space = codes " "

bump_words :
    (line : Text) (v : ℕ)
    → ltb (length (fields (trim_prefix line (codes "o=")))) 6 ≡ false
    → parse_uint (third (fields (trim_prefix line (codes "o=")))) ≡ some v
    → bump_sdp_origin line
      ≡ codes "o="
        ++ join (set_version ((v + 1) % 2 ^ 64) (fields (trim_prefix line (codes "o=")))) space
unfolding bump_sdp_origin
bump_words line v k p = rw (bump_sdp_origin, k) (rw p refl)

bumped_line :
    (name session version : Text) (rest : List Text) (v : ℕ)
    → all_words (name ∷ session ∷ version ∷ rest) ≡ true
    → 3 ≤ length rest
    → parse_uint version ≡ some v
    → bump_sdp_origin (origin_line name session version rest)
      ≡ origin_line name session (format_uint ((v + 1) % 2 ^ 64)) rest
unfolding trim_prefix has_prefix set_version
bumped_line name session version rest v w n p =
    let ws = name ∷ session ∷ version ∷ rest in
    let line = origin_line name session version rest in
    let e : fields (trim_prefix line (codes "o=")) ≡ ws = fields-join ws w in
    let six : ltb (length {A = Text} ws) 6 ≡ false = ground (arith, n) in
    bump_words line v (ap (λ (x : List Text). ltb (length x) 6) e ∙ six)
      (ap (λ (x : List Text). parse_uint (third x)) e ∙ p)
    ∙ ap (λ (x : List Text). codes "o=" ++ join (set_version ((v + 1) % 2 ^ 64) x) space) e

-- Rewriting an offer replaces its ICE generation and nothing else. An offer with a line for each credential, and one o= line of six
-- words or more whose third is a number, reads back as exactly the new credentials and candidates, none of the old
-- candidates among them, and in every section each line of a credential has the new one; the o= line is the same but for
-- the number, which is one more, modulo 2 ^ 64; and the media sections, mids and all other lines are the same, in the
-- same order.
pub rewrite_from_lem :
    (f : Fragment) (ls : List Text) (name session version : Text) (rest : List Text) (v : ℕ)
    → has_kind is_ufrag ls ≡ true
    → has_kind is_pwd ls ≡ true
    → origin_lines ls ≡ origin_line name session version rest ∷ []
    → all_words (name ∷ session ∷ version ∷ rest) ≡ true
    → 3 ≤ length rest
    → parse_uint version ≡ some v
    → let q = rewrite_from f 0 false ls in
      (read_lines blank q ≡ f)
      × (all_are (ufrag_prefix ++ f.ufrag) (ufrag_lines q) ≡ true)
      × (all_are (pwd_prefix ++ f.pwd) (pwd_lines q) ≡ true)
      × (origin_lines q ≡ origin_line name session (format_uint ((v + 1) % 2 ^ 64)) rest ∷ [])
      × (kept_lines q ≡ kept_lines ls)
rewrite_from_lem f ls name session version rest v u p o w n e = (
  read_lines-rewrite_from f blank 0 false ls ∙ ground arith,
  ufrag-rewrite_from f 0 false ls,
  pwd-rewrite_from f 0 false ls,
  origin-rewrite_from f 0 false ls
      ∙ (ap (map bump_sdp_origin) o
          ∙ ap (λ (l : Text). l ∷ []) (bumped_line name session version rest v w n e)),
  kept-rewrite_from f 0 false ls,
)
