-- ===== src/Pipeline/Reflex/Dedup.antt =====
-- internal/pipeline/partial.go: the record of what partials sent. Times are nanoseconds. The key
-- is the topic and the payload with a zero byte between them.
pub mod Latest
use streamcore_server.Base.{
  Bool, Map, Text, [], delete, false, if◌then◌else◌, insert, lookup, ltb, none, some, true, ℕ, ◌++◌,
  ◌+◌, ◌||◌, ◌∷◌,
}
use streamcore_server.Strings.{has_prefix}

-- plugin.Emission
pub record Emission : Type 0 where
  pub topic : Text
  pub payload : Text

abbrev pub reflex_dedup_ttl : ℕ
reflex_dedup_ttl = 10_000_000_000

unfoldable pub key : Emission → Text
key e = e.topic ++ (0 ∷ e.payload)

-- The loop over the records, which drops the expired ones and those of the topic.
unfoldable pub drop_records : ℕ → Text → Map ℕ → Map ℕ
drop_records now topic [] = []
drop_records now topic ((k, at) ∷ m) =
    let rest = drop_records now topic m in
    if ltb (at + reflex_dedup_ttl) now || has_prefix k topic then rest else (k, at) ∷ rest

unfoldable pub remember_reflex_emission : Map ℕ → Emission → ℕ → Map ℕ
unfolding key drop_records
remember_reflex_emission sent e now =
    insert (key e) now (drop_records now (e.topic ++ (0 ∷ [])) sent)

unfoldable pub reflex_already_sent : Map ℕ → Emission → ℕ → Map ℕ × Bool
unfolding key
reflex_already_sent sent e now = elim (lookup (key e) sent) [
  | none ↦ (sent, false)
  | some at ↦ if ltb (at + reflex_dedup_ttl) now then (sent, false) else (delete (key e) sent, true)
]
