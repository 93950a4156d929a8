-- ===== src/Ice/Lines.antt =====
-- Reading back printed lines.
use streamcore_server.Base.{
  List, Text, [], ap, arith, false, is_empty, refl, sym, ◌++◌, ◌∙◌, ◌∷◌, ◌≡◌, ◌≢◌,
}
use mathlib.Core.List.{append_assoc}
use streamcore_server.Ice.{split_lines, split_sdp_lines, clean_lines, print_lines, is_return}
use streamcore_server.Strings.{join, trim_right_by}

-- A line of an SDP text: not empty, with no line feed in it and no carriage return at its end.
abbrev pub NoFeed : Text → Type 0
NoFeed [] = Unit {0}
NoFeed (c ∷ l) = (c ≢ 10) × NoFeed l

pub record IsLine (l : Text) : Type 0 where
  pub given : is_empty l ≡ false
  pub no_feed : NoFeed l
  pub trimmed : trim_right_by is_return l ≡ l

abbrev pub AllLines : List Text → Type 0
AllLines [] = Unit {0}
AllLines (l ∷ ls) = IsLine l × AllLines ls

split_at_feed : (l rest : Text) → NoFeed l → split_lines (l ++ (10 ∷ rest)) ≡ l ∷ split_lines rest
unfolding split_lines
split_at_feed [] rest h = refl
split_at_feed (c ∷ l) rest (ne, h) = ground (arith, split_at_feed l rest h)

NoFeed-return : (l : Text) → NoFeed l → NoFeed (l ++ 13 ∷ [])
NoFeed-return [] h = (omega arith, tt)
NoFeed-return (c ∷ l) (ne, h) = (ne, NoFeed-return l h)

split_at_crlf :
    (l rest : Text)
    → NoFeed l
    → split_lines (l ++ (13 ∷ 10 ∷ rest)) ≡ (l ++ 13 ∷ []) ∷ split_lines rest
split_at_crlf l rest h =
    ap split_lines (sym (append_assoc l (13 ∷ []) (10 ∷ rest)))
    ∙ split_at_feed (l ++ 13 ∷ []) rest (NoFeed-return l h)

trim_return : (l : Text) → trim_right_by is_return (l ++ 13 ∷ []) ≡ trim_right_by is_return l
unfolding trim_right_by is_return
trim_return [] = refl
trim_return (c ∷ l) = ground (arith, trim_return l)

print-cons :
    (l m : Text) (ls : List Text) → print_lines (l ∷ m ∷ ls) ≡ l ++ (13 ∷ 10 ∷ print_lines (m ∷ ls))
unfolding print_lines join
print-cons l m ls = append_assoc l (13 ∷ 10 ∷ join (m ∷ ls) (13 ∷ 10 ∷ [])) (13 ∷ 10 ∷ [])

print-one : (l : Text) → print_lines (l ∷ []) ≡ l ++ (13 ∷ 10 ∷ [])
unfolding print_lines join
print-one l = refl

clean_empty : clean_lines (split_lines []) ≡ []
unfolding clean_lines split_lines trim_right_by
clean_empty = refl

clean-cons :
    (l : Text) (ls : List Text) → IsLine l → clean_lines ((l ++ 13 ∷ []) ∷ ls) ≡ l ∷ clean_lines ls
unfolding clean_lines
clean-cons l ls v = ground (arith, trim_return l)

-- Lines that are printed are read back as they were: at least one, each of them not empty, with no
-- line feed in it and no carriage return at its end.
pub split_sdp_lines-print_lines :
    (l : Text) (ls : List Text)
    → AllLines (l ∷ ls)
    → split_sdp_lines (print_lines (l ∷ ls)) ≡ l ∷ ls
unfolding split_sdp_lines
split_sdp_lines-print_lines l [] (v, _) =
    ap (λ t. clean_lines (split_lines t)) (print-one l)
    ∙ (ap clean_lines (split_at_crlf l [] v.no_feed)
        ∙ (clean-cons l (split_lines []) v ∙ ap (◌∷◌ l) clean_empty))
split_sdp_lines-print_lines l (m ∷ ls) (v, vs) =
    ap (λ t. clean_lines (split_lines t)) (print-cons l m ls)
    ∙ (ap clean_lines (split_at_crlf l (print_lines (m ∷ ls)) v.no_feed)
        ∙ (clean-cons l (split_lines (print_lines (m ∷ ls))) v
            ∙ ap (◌∷◌ l) (split_sdp_lines-print_lines m ls vs)))
