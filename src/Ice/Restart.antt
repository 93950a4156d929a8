-- ===== src/Ice/Restart.antt =====
-- internal/peer/icerestart.go: what the rewritten offer reads as.
use streamcore_server.Base.{
  Bool, Bool-cases, List, Option-cases, Text, [], ap, arith, codes, false, if◌then◌else◌, inl, inr,
  length, ltb, refl, sym, true, ℕ, ◌%◌, ◌++◌, ◌+◌, ◌^◌, ◌||◌, ◌∙◌, ◌∷◌, ◌≡◌, ◌⊎◌,
}
use mathlib.Core.List.{append-nil, append_assoc}
use streamcore_server.Ice.{
  Fragment, kind_of, read_line, read_lines, rewrite_from, bump_sdp_origin, pwd_prefix, ufrag_prefix,
  Kind, candidate_prefix, candidate_lines, end_of_candidates, first_wins, origin, end_line,
  candidate_line, ufrag_line, pwd_line, fields, trim_prefix, parse_uint, third, join, set_version,
  media, candidate_block, mid_line, other_line,
}

abbrev pub has_kind : (Kind → Bool) → List Text → Bool
has_kind p [] = false
has_kind p (l ∷ ls) = p (kind_of l) || has_kind p ls

abbrev pub is_ufrag : Kind → Bool
is_ufrag ufrag_line = true
is_ufrag _ = false

abbrev pub is_pwd : Kind → Bool
is_pwd pwd_line = true
is_pwd _ = false

abbrev pub when : Bool → Text → Text
when b t = if b then t else []

first_wins_again :
    (old t : Text) (b : Bool) → first_wins (first_wins old t) (when b t) ≡ first_wins old t
first_wins_again old t b = ground arith

pub kind_of-ufrag : (t : Text) → kind_of (ufrag_prefix ++ t) ≡ ufrag_line
unfolding kind_of
kind_of-ufrag t = refl

pub kind_of-pwd : (t : Text) → kind_of (pwd_prefix ++ t) ≡ pwd_line
unfolding kind_of
kind_of-pwd t = refl

pub kind_of-candidate : (t : Text) → kind_of (candidate_prefix ++ t) ≡ candidate_line
unfolding kind_of
kind_of-candidate t = refl

pub kind_of-end : kind_of end_of_candidates ≡ end_line
unfolding kind_of
kind_of-end = refl

read_line-ufrag :
    (f : Fragment) (t : Text)
    → read_line f (ufrag_prefix ++ t) ≡ record f { ufrag = first_wins f.ufrag t }
unfolding read_line kind_of
read_line-ufrag f t = refl

read_line-pwd :
    (f : Fragment) (t : Text)
    → read_line f (pwd_prefix ++ t) ≡ record f { pwd = first_wins f.pwd t }
unfolding read_line kind_of
read_line-pwd f t = refl

read_line-candidate :
    (f : Fragment) (t : Text)
    → read_line f (candidate_prefix ++ t) ≡ record f { candidates = f.candidates ++ t ∷ [] }
unfolding read_line kind_of
read_line-candidate f t = refl

-- A line of another kind is not read.
abbrev is_read : Kind → Bool
is_read ufrag_line = true
is_read pwd_line = true
is_read candidate_line = true
is_read _ = false

read_line-skip : (f : Fragment) (l : Text) → is_read (kind_of l) ≡ false → read_line f l ≡ f
unfolding read_line
read_line-skip f l h = ground arith

read_candidate_lines :
    (f : Fragment) (cs ls : List Text)
    → read_lines f (candidate_lines cs ++ ls)
      ≡ read_lines (record f { candidates = f.candidates ++ cs }) ls
unfolding read_lines candidate_lines read_line kind_of
read_candidate_lines f [] ls = rw append-nil
read_candidate_lines f (c ∷ cs) ls =
    read_candidate_lines (record f { candidates = f.candidates ++ c ∷ [] }) cs ls
    ∙ ground (arith, append_assoc f.candidates (c ∷ []) cs)

bump-cases :
    (l : Text) → (bump_sdp_origin l ≡ l) ⊎ ((t : Text) × (bump_sdp_origin l ≡ codes "o=" ++ t))
unfolding bump_sdp_origin
bump-cases l =
    let ws = fields (trim_prefix l (codes "o=")) in
    elim (Bool-cases (ltb (length ws) 6)) [
      | inl short ↦ inl (rw short)
      | inr long ↦ elim (Option-cases (parse_uint (third ws))) [
        | inl e ↦ inl (rw (long, e))
        | inr (v, e) ↦ inr (join (set_version ((v + 1) % 2 ^ 64) ws) (codes " "), rw (long, e))
      ]
    ]

pub bump-kind : (l : Text) → kind_of l ≡ origin → kind_of (bump_sdp_origin l) ≡ origin
unfolding kind_of
bump-kind l h = elim (bump-cases l) [ inl e ↦ rw e h | inr (t, e) ↦ rw e ]

read_candidate_block :
    (f : Fragment) (cs ls : List Text)
    → read_lines f (candidate_block cs ++ ls)
      ≡ read_lines (record f { candidates = f.candidates ++ cs }) ls
unfolding candidate_block
read_candidate_block f [] ls = rw append-nil
read_candidate_block f (c ∷ cs) ls = rw append_assoc (
    rw (read_candidate_lines f (c ∷ cs) (end_of_candidates ∷ ls)) (
      unfold read_lines in
      rw (
        read_line-skip (record f { candidates = f.candidates ++ c ∷ cs }) end_of_candidates
          (ap is_read kind_of-end))))

-- What reading the rewritten lines gives, from what was read before them.
abbrev pub Reads : Fragment → Fragment → ℕ → Bool → List Text → Type 0
Reads f g seen inserted ls = read_lines g (rewrite_from f seen inserted ls) ≡ record {
  ufrag = first_wins g.ufrag (when (has_kind is_ufrag ls) f.ufrag);
  pwd = first_wins g.pwd (when (has_kind is_pwd ls) f.pwd);
  candidates = g.candidates ++ (if inserted then [] else f.candidates);
}

Reads-cons :
    (f g : Fragment) (seen : ℕ) (inserted : Bool) (l : Text) (ls : List Text) (k : Kind)
    → kind_of l ≡ k
    → ((h : Fragment) (n : ℕ) (b : Bool) → Reads f h n b ls)
    → Reads f g seen inserted (l ∷ ls)
unfolding read_lines rewrite_from
Reads-cons f g seen inserted l ls media e ih = ground (
  arith,
  ih g (seen + 1) inserted,
  ih (record g { candidates = g.candidates ++ f.candidates }) (seen + 1) true,
  read_candidate_block g f.candidates (l ∷ rewrite_from f (seen + 1) true ls),
  read_line-skip g l,
  read_line-skip (record g { candidates = g.candidates ++ f.candidates }) l,
  append-nil (g.candidates ++ f.candidates),
)
Reads-cons f g seen inserted l ls origin e ih =
    ground (arith, ih g seen inserted, read_line-skip g (bump_sdp_origin l), bump-kind l)
Reads-cons f g seen inserted l ls ufrag_line e ih = ground (
  arith,
  ih (record g { ufrag = first_wins g.ufrag f.ufrag }) seen inserted,
  read_line-ufrag g f.ufrag,
  first_wins_again g.ufrag f.ufrag (has_kind is_ufrag ls),
)
Reads-cons f g seen inserted l ls pwd_line e ih = ground (
  arith,
  ih (record g { pwd = first_wins g.pwd f.pwd }) seen inserted,
  read_line-pwd g f.pwd,
  first_wins_again g.pwd f.pwd (has_kind is_pwd ls),
)
Reads-cons f g seen inserted l ls candidate_line e ih = ground (arith, ih g seen inserted)
Reads-cons f g seen inserted l ls end_line e ih = ground (arith, ih g seen inserted)
Reads-cons f g seen inserted l ls mid_line e ih =
    ground (arith, ih g seen inserted, read_line-skip g l)
Reads-cons f g seen inserted l ls other_line e ih =
    ground (arith, ih g seen inserted, read_line-skip g l)

read_candidate_block_end :
    (f : Fragment) (cs : List Text)
    → read_lines f (candidate_block cs) ≡ record f { candidates = f.candidates ++ cs }
unfolding read_lines
read_candidate_block_end f cs =
    ap (read_lines f) (sym (append-nil (candidate_block cs))) ∙ read_candidate_block f cs []

first_wins-nil : (t : Text) → first_wins t [] ≡ t
first_wins-nil t = ground arith

-- Reading the rewritten lines, from any credentials read before them and in any section: each
-- credential is the new one if the lines have a line for it, and the candidates are the new ones.
pub read_lines-rewrite_from :
    (f g : Fragment) (seen : ℕ) (inserted : Bool) (ls : List Text) → Reads f g seen inserted ls
unfolding read_lines rewrite_from
read_lines-rewrite_from f g seen true [] =
    ground (arith, first_wins-nil g.ufrag, first_wins-nil g.pwd, append-nil g.candidates)
read_lines-rewrite_from f g seen false [] =
    ground
      (arith, first_wins-nil g.ufrag, first_wins-nil g.pwd, read_candidate_block_end g f.candidates)
read_lines-rewrite_from f g seen inserted (l ∷ ls) =
    Reads-cons f g seen inserted l ls (kind_of l) refl (λ h n b. read_lines-rewrite_from f h n b ls)
