-- ===== src/Ice/Decimal.antt =====
-- strconv.ParseUint and strconv.FormatUint at base 10 and 64 bits.
use streamcore_server.Base.{
  Option, Text, [], if◌then◌else◌, leb, ltb, none, some, suc, zero, ℕ, ◌%◌, ◌&&◌, ◌*◌, ◌+◌, ◌-◌,
  ◌/◌, ◌^◌, ◌∷◌,
}

parse_digits : ℕ → Text → Option ℕ
parse_digits n [] = some n
parse_digits n (c ∷ s) =
    let rest = parse_digits (n * 10 + (c - b'0')) s in
    if leb b'0' c && leb c b'9' && ltb (n * 10 + (c - b'0')) (2 ^ 64) then rest else none

unfoldable pub parse_uint : Text → Option ℕ
unfolding parse_digits
parse_uint [] = none
parse_uint (c ∷ s) = parse_digits 0 (c ∷ s)

-- Twenty digits are enough for 64 bits.
format_from : ℕ → ℕ → Text → Text
format_from zero n out = out
format_from (suc fuel) n out =
    let rest = format_from fuel (n / 10) ((b'0' + n % 10) ∷ out) in
    if ltb n 10 then (b'0' + n) ∷ out else rest

unfoldable pub format_uint : ℕ → Text
unfolding format_from
format_uint n = format_from 20 n []
