-- ===== src/Pipeline/Reflex/Staging.antt =====
-- internal/pipeline/partial.go: what a partial fires, and what waits for its capture to settle. A
-- tool is its name, the arguments of a hit are the pair that is encoded, a capture has the number of
-- its allocation for its identity, and `none` is a panic in the matcher.
pub mod Spends
pub mod Once
use streamcore_server.Base.{
  Bool, List, Map, Option, Text, [], delete, false, if◌then◌else◌, insert, is_empty, leb, lookup,
  none, not, some, suc, text_eq, true, ℕ, ◌&&◌, ◌++◌, ◌==◌, ◌∷◌,
}
use streamcore_server.Strings.{Unicode, member}
use streamcore_server.Pipeline.Reflex.Matching.{
  normalize_partial, contains_phrase, has_prefix_phrase, capture_after_anchor,
}

-- reflexEntry
pub record Entry : Type 0 where
  pub name : Text
  pub match_any : List Text
  pub starts_with : List Text
  pub after : List Text
  pub arg : Text
  pub once : Bool

-- pendingCapture
pub record Capture : Type 0 where
  pub id : ℕ
  pub text : Text
  pub anchors : ℕ

-- reflexHit
pub record Hit : Type 0 where
  pub tool : Text
  pub args : Option (Text × Text)

-- partialReflex
pub record Reflex : Type 0 where
  pub entries : List Entry
  pub fired : List Text
  pub fired_anchors : Map ℕ
  pub pending : Map Capture
  pub allocated : ℕ

unfoldable pub end_utterance : Reflex → Reflex
end_utterance r = record r { fired = []; pending = []; fired_anchors = [] }

unfoldable pub same_capture : Option Capture → Text → ℕ → Bool
same_capture none rest anchors = false
same_capture (some p) rest anchors = text_eq p.text rest && p.anchors == anchors

-- A new capture takes the place of the one that waits.
unfoldable pub stage : Entry → Text → ℕ → Reflex → Reflex
unfolding same_capture
stage e rest anchors r =
    if same_capture (lookup e.name r.pending) rest anchors then r else record r {
      pending =
          insert e.name (record { id = r.allocated; text = rest; anchors = anchors }) r.pending;
      allocated = suc r.allocated;
    }

unfoldable pub stage_locked : Entry → Text → Reflex → Option Reflex
unfolding stage
stage_locked e text r = elim (capture_after_anchor text e.after) [
  | none ↦ none
  | some none ↦ some r
  | some (some (rest, anchors)) ↦ some (if is_empty rest then r else stage e rest anchors r)
]

-- !containsPhrase(...) && !hasPrefixPhrase(...), the other way round.
unfoldable pub matches : Entry → Text → Option Bool
matches e text = elim (contains_phrase text e.match_any) [
  | none ↦ none
  | some true ↦ some true
  | some false ↦ some (has_prefix_phrase text e.starts_with)
]

unfoldable pub fire : Entry → Reflex → Reflex × List Hit
fire e r = (
  (if e.once then record r { fired = e.name ∷ r.fired } else r),
  record { tool = e.name; args = none } ∷ [],
)

-- The body of the loop of observe.
unfoldable pub observe_entry : Entry → Text → Reflex → Option (Reflex × List Hit)
unfolding stage_locked matches fire
observe_entry e text r =
    if e.once && member e.name r.fired
    then some (r, [])
    else if not (is_empty e.arg)
    then (elim (stage_locked e text r) [ none ↦ none | some q ↦ some (q, []) ])
    else (elim (matches e text) [
      | none ↦ none
      | some false ↦ some (r, [])
      | some true ↦ some (fire e r)
    ])

unfoldable pub observe_entries : List Entry → Text → Reflex → Option (Reflex × List Hit)
unfolding observe_entry
observe_entries [] text r = some (r, [])
observe_entries (e ∷ es) text r = elim (observe_entry e text r) [
  | none ↦ none
  | some (q, hits) ↦ elim (observe_entries es text q) [
    | none ↦ none
    | some (q', more) ↦ some (q', hits ++ more)
  ]
]

unfoldable pub observe : Unicode → Text → Reflex → Option (Reflex × List Hit)
unfolding observe_entries
observe u partial r =
    let text = normalize_partial u partial in
    if is_empty text then some (r, []) else observe_entries r.entries text r

abbrev pub anchors_of : Text → Map ℕ → ℕ
anchors_of name m = elim (lookup name m) [ none ↦ 0 | some n ↦ n ]

unfoldable pub waits_as : Option Capture → ℕ → Bool
waits_as none id = false
waits_as (some p) id = p.id == id

-- The timer of a capture that an entry staged: the state, and the hit that is sent.
unfoldable pub settled : Entry → Capture → Reflex → Reflex × Option Hit
unfolding waits_as
settled e p r =
    let q = record r { pending = delete e.name r.pending } in
    if not (waits_as (lookup e.name r.pending) p.id)
    then (r, none)
    else if leb p.anchors (anchors_of e.name r.fired_anchors)
    then (q, none)
    else (
      record q {
        fired_anchors = insert e.name p.anchors r.fired_anchors;
        fired = if e.once then e.name ∷ r.fired else r.fired;
      },
      some (record { tool = e.name; args = some (e.arg, p.text) }),
    )
