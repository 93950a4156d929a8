-- ===== src/Examples/Offers.antt =====
-- An offer that is restarted with new credentials.
use streamcore_server.Base.{
  List, Text, [], arith, codes, false, refl, some, text_eq, true, ◌%◌, ◌+◌, ◌++◌, ◌^◌, ◌∷◌, ◌≡◌,
}
use streamcore_server.Ice.{
  Fragment, blank, read_lines, rewrite_from, kind_of, is_return, ufrag_prefix, pwd_prefix,
}
use streamcore_server.Ice.Decimal.{format_uint, parse_uint}
use streamcore_server.Ice.Offer.{
  rewrite_from_lem, kept_lines, all_are, ufrag_lines, pwd_lines, origin_lines, origin_line,
}
use streamcore_server.Ice.Lines.{AllLines}
use streamcore_server.Strings.{trim_right_by, has_prefix, join, is_space}
use streamcore_server.Strings.Fields.{all_words}
use streamcore_server.Ice.Restart.{has_kind, is_ufrag, is_pwd}

abbrev fragment : Fragment
fragment = record { ufrag = codes "new"; pwd = codes "secret"; candidates = codes "1 1 udp 7" ∷ [] }

abbrev offer : List Text
offer =
    codes "o=- 1 2 IN IP4 0.0.0.0"
    ∷ codes "m=audio 9 UDP/TLS/RTP/SAVPF 111"
    ∷ codes "a=ice-ufrag:old"
    ∷ codes "a=ice-pwd:old"
    ∷ codes "a=candidate:0 1 udp 9"
    ∷ codes "a=mid:0"
    ∷ []

offer_has : (has_kind is_ufrag offer ≡ true) × (has_kind is_pwd offer ≡ true)
unfolding kind_of has_prefix text_eq
offer_has = (refl, refl)

abbrev rest : List Text
rest = codes "IN" ∷ codes "IP4" ∷ codes "0.0.0.0" ∷ []

offer_origin : origin_lines offer ≡ origin_line (codes "-") (codes "1") (codes "2") rest ∷ []
unfolding kind_of has_prefix text_eq join
offer_origin = refl

parse_2 : parse_uint (codes "2") ≡ some 2
unfolding parse_uint
parse_2 = refl

offer_words : all_words (codes "-" ∷ codes "1" ∷ codes "2" ∷ rest) ≡ true
unfolding is_space
offer_words = refl

rewrite_from_lem_example :
    let q = rewrite_from fragment 0 false offer in
    (read_lines blank q ≡ fragment)
    × (all_are (ufrag_prefix ++ fragment.ufrag) (ufrag_lines q) ≡ true)
    × (all_are (pwd_prefix ++ fragment.pwd) (pwd_lines q) ≡ true)
    × (origin_lines q
        ≡ origin_line (codes "-") (codes "1") (format_uint ((2 + 1) % 2 ^ 64)) rest ∷ [])
    × (kept_lines q ≡ kept_lines offer)
rewrite_from_lem_example =
    rewrite_from_lem fragment offer (codes "-") (codes "1") (codes "2") rest 2 offer_has.0
      offer_has.1 offer_origin offer_words (omega arith) parse_2

abbrev lines : List Text
lines = codes "t=0" ∷ []

lines-AllLines : AllLines (codes "v=0" ∷ lines)
unfolding trim_right_by is_return
lines-AllLines = (
  record {
    given = refl;
    no_feed = (omega arith, (omega arith, (omega arith, tt)));
    trimmed = refl;
  },
  (
    record {
      given = refl;
      no_feed = (omega arith, (omega arith, (omega arith, tt)));
      trimmed = refl;
    },
    tt,
  ),
)

format_1234 : format_uint 18_446_744_073_709_551_615 ≡ codes "18446744073709551615"
unfolding format_uint
format_1234 = refl
