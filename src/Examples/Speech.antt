-- ===== src/Examples/Speech.antt =====
-- What is said: the fragments of a turn, chunks of a transcript, and phrases that call tools.
use streamcore_server.Base.{
  List, Text, [], ap, arith, codes, false, if◌then◌else◌, is_empty, is_some, length, min, none,
  refl, some, text_eq, true, ◌↔◌, ◌∷◌, ◌≡◌, ◌≢◌,
}
use streamcore_server.Strings.{
  Unicode, fields, trim_space, trim_left, trim_right_by, is_space, has_prefix,
}
use streamcore_server.Examples.Turns.{ascii}
use streamcore_server.Pipeline.Realtime.UserTurn.{close_turn, new_turn}
use streamcore_server.Pipeline.Realtime.UserTurn
use streamcore_server.Pipeline.Realtime.UserTurn.Coverage.{
  Fragment, revised, finalised, receive, Covers, close_turn-Covers,
}
use streamcore_server.Stt.Transcript.{
  merge_transcript_chunks, longest_overlap, preserves_repeated_spoken_digit_boundary,
}
use streamcore_server.Stt.Transcript.Overlap.{Greatest, Joined, merge_transcript_chunks_joins}
use streamcore_server.Pipeline.Reflex.Matching.{contains_phrase, finds}
use streamcore_server.Pipeline.Reflex.Matching.WholeWords.{AnyWhole, contains_phrase_decides}
use streamcore_server.Pipeline.Reflex.Staging.{Entry, Hit, Reflex}
use streamcore_server.Pipeline.Reflex.Dedup.{Emission}

abbrev fragments : List Fragment
fragments =
    revised (codes "Can you")
    ∷ finalised (codes "Can you tell me what")
    ∷ finalised (codes "StreamCore is?")
    ∷ []

close_turn-Covers_example :
    let (q, text) = close_turn ascii (receive ascii new_turn fragments) in
    Covers ascii text fragments × (q ≡ new_turn)
close_turn-Covers_example = close_turn-Covers ascii fragments

one_turn :
    (close_turn ascii (receive ascii new_turn fragments)).1
    ≡ codes "Can you tell me what StreamCore is?"
unfolding close_turn receive UserTurn.complete UserTurn.update UserTurn.text_locked
    UserTurn.merge_user_fragments trim_space streamcore_server.Strings.contains
one_turn = refl

abbrev booked : Text
booked = codes "book a table"

abbrev table_for_two : Text
table_for_two = codes "a table for two"

booked_words : is_empty (fields (trim_space booked)) ≡ false
unfolding fields trim_space
booked_words = refl

table_words : is_empty (fields (trim_space table_for_two)) ≡ false
unfolding fields trim_space
table_words = refl

merge_transcript_chunks_joins_example :
    let b = fields (trim_space booked) in
    let n = fields (trim_space table_for_two) in
    let k = longest_overlap text_eq b n in
    Greatest text_eq b n (min (length b) (length n)) k
    × Joined b n
        (if preserves_repeated_spoken_digit_boundary ascii b n k then 0 else k)
        (merge_transcript_chunks ascii text_eq booked table_for_two)
merge_transcript_chunks_joins_example =
    merge_transcript_chunks_joins ascii text_eq booked table_for_two booked_words table_words

merged : merge_transcript_chunks ascii text_eq booked table_for_two ≡ codes "book a table for two"
unfolding merge_transcript_chunks trim_space fields text_eq streamcore_server.Strings.join
merged = refl

repeated_digit :
    merge_transcript_chunks ascii text_eq (codes "four five five") (codes "five six seven")
    ≡ codes "four five five five six seven"
unfolding merge_transcript_chunks trim_space fields text_eq streamcore_server.Strings.member
    streamcore_server.Strings.join
repeated_digit = refl

abbrev stop : List Text
stop = codes "stop" ∷ []

contains_phrase_decides_example :
    (is_some (contains_phrase (codes "stopwatch no stop") stop) ≡ true)
    × ((contains_phrase (codes "stopwatch no stop") stop ≡ some true)
        ↔ AnyWhole (codes "stopwatch no stop") stop)
contains_phrase_decides_example = contains_phrase_decides (codes "stopwatch no stop") stop refl

not_in_stopwatch : contains_phrase (codes "stopwatch") stop ≡ some false
unfolding contains_phrase
not_in_stopwatch = refl

abbrev brake : Entry
brake = record {
  name = codes "brake";
  match_any = stop;
  starts_with = [];
  after = [];
  arg = [];
  once = true;
}

abbrev grab : Entry
grab = record {
  name = codes "grab";
  match_any = [];
  starts_with = [];
  after = codes "grab" ∷ codes "no the" ∷ [];
  arg = codes "object";
  once = false;
}

abbrev idle : Reflex
idle = record {
  entries = brake ∷ grab ∷ [];
  fired = [];
  fired_anchors = [];
  pending = [];
  allocated = 0;
}

abbrev braked : Reflex
braked = record idle { fired = codes "brake" ∷ [] }

abbrev braking : Hit
braking = record { tool = codes "brake"; args = none }

abbrev red : Emission
red = record { topic = codes "arm"; payload = codes "red" }

abbrev blue : Emission
blue = record { topic = codes "arm"; payload = codes "blue" }

red-blue : blue.payload ≢ red.payload
red-blue e = absurd (ground (arith, ap (λ (t : Text). text_eq t blue.payload) e))
