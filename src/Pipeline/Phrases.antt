-- ===== src/Pipeline/Phrases.antt =====
-- internal/pipeline/bargein.go: what a caller's words say about who has the floor. What package
-- unicode says of a code point is a parameter.
-- strings.Fields of a literal.
pub mod Commands
use streamcore_server.Base.{
  Bool, List, Option, Text, [], codes, false, if◌then◌else◌, is_empty, leb, length, ltb, map, none,
  not, some, text_eq, true, ℕ, ◌&&◌, ◌++◌, ◌+◌, ◌==◌, ◌||◌, ◌∷◌,
}
use Prim.Native.String.{String}
use streamcore_server.Strings.{
  Unicode, member, trim_right_by, trim_left_by, trim_space, join, fields, to_lower,
}

abbrev pub words : String → List Text
words s = fields (codes s)

abbrev pub backchannel_word_tokens : List Text
backchannel_word_tokens =
    words "mm mhm mmhmm mhmm hmm hm uh huh uhhuh um umm yep yup yeah yea yes ya okay ok"
    ++ words "kay right sure alright cool nice wow oh ah aha gotcha got it i see true"
    ++ words "totally exactly thats that's"

abbrev pub barge_in_command_tokens : List Text
barge_in_command_tokens =
    words "stop wait pause cancel actually no hang hold repeat transfer operator human"
    ++ words "help"

abbrev pub barge_in_weak_tokens : List Text
barge_in_weak_tokens =
    words "i im i'm me my you your we it this that the a an and or but so to of for with"
    ++ words "on in at from about is are was were be can could would should will do does did"
    ++ words "need want um uh uhh umm hmm okay ok yeah yes yep right sure"

abbrev pub incomplete_tail_words : List Text
incomplete_tail_words =
    words "um uh er hmm like and or but so because if when then while as that which who"
    ++ words "where why how the a an my your this to of for with at on in by from about into"
    ++ words "onto over under is are was were be been being am do does did have has had will"
    ++ words "would can could shall should may might must i you he she we they it"

abbrev pub dictation_tail_words : List Text
dictation_tail_words =
    words "dot dash hyphen underscore plus slash period point gmail hotmail outlook yahoo"
    ++ words "icloud mail"

-- The bytes that a code point takes in UTF-8, and len of a string.
abbrev width : ℕ → ℕ
width c = if ltb c 128 then 1 else if ltb c 2048 then 2 else if ltb c 65536 then 3 else 4

abbrev pub byte_length : Text → ℕ
byte_length [] = 0
byte_length (c ∷ s) = width c + byte_length s

abbrev pub any_of : List Text → List Text → Bool
any_of [] vs = false
any_of (w ∷ ws) vs = member w vs || any_of ws vs

abbrev pub all_of : List Text → List Text → Bool
all_of [] vs = true
all_of (w ∷ ws) vs = member w vs && all_of ws vs

unfoldable pub is_backchannel_only : List Text → Bool
is_backchannel_only [] = false
is_backchannel_only (w ∷ ws) = all_of (w ∷ ws) backchannel_word_tokens

unfoldable pub content_words : List Text → ℕ
content_words [] = 0
content_words (w ∷ ws) =
    (if leb 3 (byte_length w) && not (member w barge_in_weak_tokens) then 1 else 0)
    + content_words ws

unfoldable pub is_meaningful : List Text → Bool
unfolding content_words is_backchannel_only
is_meaningful tokens =
    if is_empty tokens
    then false
    else if any_of tokens barge_in_command_tokens
    then true
    else if is_backchannel_only tokens
    then false
    else leb 1 (content_words tokens) && leb 2 (length tokens)

unfoldable pub is_strong_command : List Text → Bool
is_strong_command [] = false
is_strong_command (w ∷ ws) =
    if text_eq w (codes "stop") || text_eq w (codes "cancel")
    then true
    else if text_eq w (codes "hang") && starts_up ws
    then true
    else is_strong_command ws
  where
    starts_up : List Text → Bool
    starts_up [] = false
    starts_up (v ∷ _) = text_eq v (codes "up")

-- The last of some words.
abbrev last_of : List Text → Text
last_of [] = []
last_of (w ∷ []) = w
last_of (_ ∷ v ∷ ws) = last_of (v ∷ ws)

abbrev is_punct : ℕ → Bool
is_punct c = member (c ∷ []) (map (λ d. d ∷ []) (codes ",.!?;:-—'\""))

abbrev is_closer : ℕ → Bool
is_closer c = member (c ∷ []) (map (λ d. d ∷ []) (codes "'\")]}"))

abbrev is_terminal_mark : Option ℕ → Bool
is_terminal_mark none = false
is_terminal_mark (some c) = c == b'.' || c == b'!' || c == b'?'

abbrev last_code : Text → Option ℕ
last_code [] = none
last_code (c ∷ []) = some c
last_code (_ ∷ d ∷ s) = last_code (d ∷ s)

abbrev are_digits : Text → Bool
are_digits [] = true
are_digits (c ∷ s) = leb b'0' c && leb c b'9' && are_digits s

abbrev is_lone_letter : Text → Bool
is_lone_letter (c ∷ []) = leb b'a' c && leb c b'z'
is_lone_letter _ = false

unfoldable pub ends_terminal : Text → Bool
unfolding trim_right_by trim_space
ends_terminal s = is_terminal_mark (last_code (trim_right_by is_closer (trim_space s)))

module _ (u : Unicode) where
  abbrev keep_code : ℕ → ℕ
  keep_code c = if u.is_letter c || u.is_digit c || c == b'\'' then c else b' '

  unfoldable pub normalized_transcript_text : Text → Text
  normalized_transcript_text s = join (fields (map keep_code (to_lower u s))) (codes " ")

  unfoldable pub last_word : Text → Text
  last_word s = trim_right_by is_punct (trim_left_by is_punct (last_of (fields (to_lower u s))))

  unfoldable pub is_meaningful_barge_in_transcript : Text → Bool
  is_meaningful_barge_in_transcript s = is_meaningful (fields (normalized_transcript_text s))

  unfoldable pub is_acknowledgement_only : Text → Bool
  is_acknowledgement_only s = is_backchannel_only (fields (normalized_transcript_text s))

  unfoldable pub is_strong_barge_in_command : Text → Bool
  is_strong_barge_in_command s = is_strong_command (fields (normalized_transcript_text s))

  unfoldable pub ends_incomplete : Text → Bool
  ends_incomplete s = member (last_word s) incomplete_tail_words

  unfoldable pub ends_dictation : Text → Bool
  ends_dictation s =
      let last = last_word s in
      if is_empty last
      then false
      else if member last dictation_tail_words
      then true
      else if is_lone_letter last
      then true
      else are_digits last
