-- ===== src/Plugin/Result.antt =====
-- internal/plugin/result.go: what a tool returns, and how it is read. encoding/json is a parameter, at the
-- types that the code gives it.
use streamcore_server.Base.{
  Bool, List, Option, Text, [], arith, codes, false, if◌then◌else◌, is_empty, none, not, refl, some,
  ◌&&◌, ◌||◌, ◌∷◌, ◌≡◌, ◌≢◌, ◌⊎◌,
}
use streamcore_server.Pipeline.Reflex.Dedup.{Emission}
use streamcore_server.Strings.{member}

pub record Result : Type 0 where
  pub speak : Text
  pub emit : List Emission

pub record ResultJson : Type 0 where
  -- Unmarshal into a map: its keys. Unmarshal into a Result, and Marshal of one.
  pub keys : Text → Option (List Text)
  pub decode : Text → Option Result
  pub encode : Result → Option Text

unfoldable pub any_without_topic : List Emission → Bool
any_without_topic [] = false
any_without_topic (e ∷ es) = is_empty e.topic || any_without_topic es

unfoldable pub decode_envelope : ResultJson → Text → Option Result
unfolding any_without_topic
decode_envelope j raw = elim (j.keys raw) [
  | none ↦ none
  | some ks ↦
      if not (member (codes "speak") ks) && not (member (codes "emit") ks)
      then none
      else elim (j.decode raw) [
        | none ↦ none
        | some r ↦ if any_without_topic r.emit then none else some r
      ]
]

unfoldable pub parse_result : ResultJson → Text → Result
unfolding decode_envelope
parse_result j raw = elim (decode_envelope j raw) [
  | some r ↦ r
  | none ↦ record { speak = raw; emit = [] }
]

-- A result that is encoded is read as itself, if it says or sends something and every packet has a topic. What
-- Marshal writes, Unmarshal reads back, and it leaves out the fields that are empty and no others.
pub parse_result-encode :
    (j : ResultJson)
    (decodes : (r : Result) (raw : Text) → j.encode r ≡ some raw → j.decode raw ≡ some r)
    (omits : (r : Result) (raw : Text)
      → j.encode r ≡ some raw
      → (ks : List Text) × (j.keys raw ≡ some ks)
        × (member (codes "speak") ks ≡ not (is_empty r.speak))
        × (member (codes "emit") ks ≡ not (is_empty r.emit)))
    (r : Result) (raw : Text)
    → j.encode r ≡ some raw
    → (r.speak ≢ []) ⊎ (r.emit ≢ [])
    → any_without_topic r.emit ≡ false
    → parse_result j raw ≡ r
unfolding parse_result decode_envelope
parse_result-encode j decodes omits r raw e said t =
    let (ks, k, s, m) = omits r raw e in
    let d = decodes r raw e in
    let b : (not (member (codes "speak") ks) && not (member (codes "emit") ks)) ≡ false =
      rw (s, m) (ground (arith, said)) in
    rw (k, parse_result) (rw b (rw d (rw t refl)))
