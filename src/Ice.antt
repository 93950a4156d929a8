-- ===== src/Ice.antt =====
-- internal/peer/icerestart.go: reading an ICE fragment, folding it into the stored offer, and
-- rendering the reply. SDP texts are lists of bytes.
pub mod Decimal
pub mod Restart
pub mod Offer
pub mod Lines
pub mod Exchange
use streamcore_server.Base.{
  Bool, List, Option, Text, [], codes, false, if◌then◌else◌, is_empty, length, ltb, none, not, some,
  text_eq, true, ℕ, ◌%◌, ◌&&◌, ◌++◌, ◌+◌, ◌==◌, ◌^◌, ◌||◌, ◌∷◌,
}
use streamcore_server.Strings.{has_prefix, trim_prefix, trim_right_by, fields, join}
use streamcore_server.Ice.Decimal.{parse_uint, format_uint}

-- What the switches over a line ask for. No line has two of these prefixes, so the order in which a
-- switch asks is immaterial.
pub data Kind : Type 0 where
  media origin ufrag_line pwd_line candidate_line end_line mid_line other_line : Kind

abbrev pub ufrag_prefix : Text
ufrag_prefix = codes "a=ice-ufrag:"

abbrev pub pwd_prefix : Text
pwd_prefix = codes "a=ice-pwd:"

abbrev pub candidate_prefix : Text
candidate_prefix = codes "a=candidate:"

abbrev pub mid_prefix : Text
mid_prefix = codes "a=mid:"

abbrev pub end_of_candidates : Text
end_of_candidates = codes "a=end-of-candidates"

unfoldable pub kind_of : Text → Kind
unfolding has_prefix text_eq
kind_of l =
    if has_prefix l (codes "m=")
    then media
    else if has_prefix l (codes "o=")
    then origin
    else if has_prefix l ufrag_prefix
    then ufrag_line
    else if has_prefix l pwd_prefix
    then pwd_line
    else if has_prefix l candidate_prefix
    then candidate_line
    else if has_prefix l mid_prefix
    then mid_line
    else if text_eq l end_of_candidates
    then end_line
    else other_line

-- strings.Split at "\n".
unfoldable pub split_lines : Text → List Text
split_lines [] = [] ∷ []
split_lines (c ∷ s) =
    let rest = split_lines s in
    if c == 10 then [] ∷ rest else elim rest [ [] ↦ (c ∷ []) ∷ [] | l ∷ ls ↦ (c ∷ l) ∷ ls ]

unfoldable pub is_return : ℕ → Bool
is_return c = c == 13

clean_lines : List Text → List Text
unfolding trim_right_by is_return
clean_lines [] = []
clean_lines (l ∷ ls) =
    let l' = trim_right_by is_return l in
    if is_empty l' then clean_lines ls else l' ∷ clean_lines ls

unfoldable pub split_sdp_lines : Text → List Text
unfolding clean_lines split_lines
split_sdp_lines sdp = clean_lines (split_lines sdp)

pub record Fragment : Type 0 where
  pub ufrag : Text
  pub pwd : Text
  pub candidates : List Text

-- The first of each credential wins.
abbrev pub first_wins : Text → Text → Text
first_wins old new = if is_empty old then new else old

unfoldable pub read_line : Fragment → Text → Fragment
unfolding trim_prefix
read_line f l = elim (kind_of l) [
  | ufrag_line ↦ record f { ufrag = first_wins f.ufrag (trim_prefix l ufrag_prefix) }
  | pwd_line ↦ record f { pwd = first_wins f.pwd (trim_prefix l pwd_prefix) }
  | candidate_line ↦ record f { candidates = f.candidates ++ trim_prefix l candidate_prefix ∷ [] }
  | _ ↦ f
]

unfoldable pub read_lines : Fragment → List Text → Fragment
read_lines f [] = f
read_lines f (l ∷ ls) = read_lines (read_line f l) ls

abbrev pub blank : Fragment
blank = record { ufrag = []; pwd = []; candidates = [] }

abbrev pub complete : Fragment → Option Fragment
complete f = if is_empty f.ufrag || is_empty f.pwd then none else some f

-- `none` is ErrNoICECredentials.
unfoldable pub parse_ice_fragment : Text → Option Fragment
parse_ice_fragment s = complete (read_lines blank (split_sdp_lines s))

candidate_lines : List Text → List Text
candidate_lines [] = []
candidate_lines (c ∷ cs) = (candidate_prefix ++ c) ∷ candidate_lines cs

-- The block that is put in once: the candidates and, if there is one, the end mark.
unfoldable pub candidate_block : List Text → List Text
unfolding candidate_lines
candidate_block [] = []
candidate_block (c ∷ cs) = candidate_lines (c ∷ cs) ++ end_of_candidates ∷ []

set_version : ℕ → List Text → List Text
set_version v [] = []
set_version v (a ∷ []) = a ∷ []
set_version v (a ∷ b ∷ []) = a ∷ b ∷ []
set_version v (a ∷ b ∷ _ ∷ ws) = a ∷ b ∷ format_uint v ∷ ws

abbrev third : List Text → Text
third (_ ∷ _ ∷ c ∷ _) = c
third _ = []

-- The version of an `o=` line goes up by one, modulo 2 ^ 64.
unfoldable pub bump_sdp_origin : Text → Text
unfolding set_version
bump_sdp_origin line =
    let ws = fields (trim_prefix line (codes "o=")) in
    if ltb (length ws) 6 then line else (elim (parse_uint (third ws)) [
      | none ↦ line
      | some v ↦ codes "o=" ++ join (set_version ((v + 1) % 2 ^ 64) ws) (codes " ")
    ])

-- The loop over the lines of the stored offer. `seen` is the number of media sections entered, and
-- `inserted` whether the new candidates are in.
unfoldable pub rewrite_from : Fragment → ℕ → Bool → List Text → List Text
rewrite_from f seen inserted [] = if inserted then [] else candidate_block f.candidates
rewrite_from f seen inserted (l ∷ ls) = elim (kind_of l) [
  | media ↦
      if seen == 1 && not inserted
      then candidate_block f.candidates ++ (l ∷ rewrite_from f (seen + 1) true ls)
      else l ∷ rewrite_from f (seen + 1) inserted ls
  | origin ↦ bump_sdp_origin l ∷ rewrite_from f seen inserted ls
  | ufrag_line ↦ (ufrag_prefix ++ f.ufrag) ∷ rewrite_from f seen inserted ls
  | pwd_line ↦ (pwd_prefix ++ f.pwd) ∷ rewrite_from f seen inserted ls
  | candidate_line ↦ rewrite_from f seen inserted ls
  | end_line ↦ rewrite_from f seen inserted ls
  | _ ↦ l ∷ rewrite_from f seen inserted ls
]

abbrev pub crlf : Text
crlf = 13 ∷ 10 ∷ []

-- strings.Join at "\r\n", and one more at the end.
unfoldable pub print_lines : List Text → Text
print_lines ls = join ls crlf ++ crlf

unfoldable pub rewrite_ice_for_restart : Text → Fragment → Text
rewrite_ice_for_restart sdp f = print_lines (rewrite_from f 0 false (split_sdp_lines sdp))

-- What the reply is rendered from: the local description up to its second media section.
pub record Local : Type 0 where
  pub fragment : Fragment
  pub m_line : Text
  pub mid : Text

abbrev pub no_local : Local
no_local = record { fragment = blank; m_line = []; mid = [] }

-- `seen` is the number of media sections entered.
unfoldable pub scan_local : Local → ℕ → List Text → Local
unfolding trim_prefix
scan_local d seen [] = d
scan_local d seen (l ∷ ls) = elim (kind_of l) [
  | media ↦ scan_local (if seen == 0 then record d { m_line = l } else d) (seen + 1) ls
  | mid_line ↦
      scan_local
        (if ltb 1 seen then d else record d { mid = first_wins d.mid (trim_prefix l mid_prefix) })
        seen ls
  | _ ↦
      scan_local (if ltb 1 seen then d else record d { fragment = read_line d.fragment l }) seen ls
]

abbrev pub line_if : Text → Text → List Text
line_if prefix t = if is_empty t then [] else (prefix ++ t) ∷ []

unfoldable pub local_lines : Local → List Text
unfolding candidate_lines
local_lines d =
    line_if ufrag_prefix d.fragment.ufrag
    ++ (line_if pwd_prefix d.fragment.pwd
        ++ (line_if [] d.m_line
            ++ (line_if mid_prefix d.mid
                ++ (candidate_lines d.fragment.candidates ++ end_of_candidates ∷ []))))

unfoldable pub ice_fragment_from_sdp : Text → Text
ice_fragment_from_sdp sdp = print_lines (local_lines (scan_local no_local 0 (split_sdp_lines sdp)))
