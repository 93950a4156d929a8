-- ===== src/Strings.antt =====
-- What the program uses of Go's packages strings and unicode, over lists of code points. The case
-- and letter tables of package unicode are a parameter.
pub mod Search
pub mod Fields
pub mod Trim
use streamcore_server.Base.{
  Bool, List, Option, Text, [], drop, false, if◌then◌else◌, is_empty, leb, length, map, none, some,
  text_eq, true, ℕ, ◌&&◌, ◌++◌, ◌==◌, ◌||◌, ◌∷◌,
}

-- unicode.IsSpace
unfoldable pub is_space : ℕ → Bool
is_space c =
    (leb 9 c && leb c 13)
    || c == 32
    || c == 0x85
    || c == 0xa0
    || c == 0x1680
    || (leb 0x2000 c && leb c 0x200a)
    || c == 0x2028
    || c == 0x2029
    || c == 0x202f
    || c == 0x205f
    || c == 0x3000

unfoldable pub trim_left : Text → Text
trim_left [] = []
trim_left (c ∷ s) = if is_space c then trim_left s else c ∷ s

-- Cuts the code points that pass the test off the end.
unfoldable pub trim_right_by : (ℕ → Bool) → Text → Text
trim_right_by p [] = []
trim_right_by p (c ∷ s) = let r = trim_right_by p s in if is_empty r && p c then [] else c ∷ r

unfoldable pub trim_left_by : (ℕ → Bool) → Text → Text
trim_left_by p [] = []
trim_left_by p (c ∷ s) = if p c then trim_left_by p s else c ∷ s

-- strings.TrimSpace
unfoldable pub trim_space : Text → Text
unfolding trim_left trim_right_by is_space
trim_space s = trim_right_by is_space (trim_left s)

-- strings.HasPrefix(s, p)
unfoldable pub has_prefix : Text → Text → Bool
has_prefix s [] = true
has_prefix [] (p ∷ ps) = false
has_prefix (c ∷ s) (p ∷ ps) = c == p && has_prefix s ps

-- strings.TrimPrefix
unfoldable pub trim_prefix : Text → Text → Text
unfolding has_prefix
trim_prefix s p = if has_prefix s p then drop (length p) s else s

-- strings.Contains
unfoldable pub contains : Text → Text → Bool
unfolding has_prefix
contains [] p = has_prefix [] p
contains (c ∷ s) p = has_prefix (c ∷ s) p || contains s p

-- strings.Cut at one code point.
unfoldable pub cut : ℕ → Text → Option (Text × Text)
cut sep [] = none
cut sep (c ∷ s) =
    let rest = cut sep s in
    if c == sep then some ([], s) else elim rest [ none ↦ none | some (a, b) ↦ some (c ∷ a, b) ]

abbrev pub word_cons : Text → List Text → List Text
word_cons w ws = if is_empty w then ws else w ∷ ws

fields_from : Text → Text → List Text
fields_from w [] = word_cons w []
fields_from w (c ∷ s) = elim (is_space c) [
  | true ↦ word_cons w (fields_from [] s)
  | false ↦ fields_from (w ++ c ∷ []) s
]

-- strings.Fields
unfoldable pub fields : Text → List Text
unfolding fields_from is_space
fields s = fields_from [] s

-- strings.Join
unfoldable pub join : List Text → Text → Text
join [] sep = []
join (w ∷ []) sep = w
join (w ∷ v ∷ ws) sep = w ++ (sep ++ join (v ∷ ws) sep)

-- A member of a list of texts, as the maps of words are read.
unfoldable pub member : Text → List Text → Bool
member w [] = false
member w (v ∷ vs) = text_eq v w || member w vs

-- Package unicode.
pub record Unicode : Type 0 where
  pub lower : ℕ → ℕ
  pub is_letter : ℕ → Bool
  pub is_digit : ℕ → Bool

-- strings.ToLower
abbrev pub to_lower : Unicode → Text → Text
to_lower u = map u.lower
