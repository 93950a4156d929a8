-- ===== src/Plugin/Manifest.antt =====
-- internal/plugin/manifest.go, but for NormalizePartial: what a plugin.yaml says, how the loader
-- folds its forms into one, and what it accepts. The values of a decoded document are the type `V`.
-- A number of milliseconds that is not positive is 0. What json.Unmarshal reads of a plugin's table
-- is a parameter.
pub mod Accepts
use streamcore_server.Base.{
  Bool, List, Map, Option, Text, [], codes, false, if◌then◌else◌, is_empty, is_some, map, none, not,
  some, suc, text_eq, true, ℕ, ◌&&◌, ◌*◌, ◌++◌, ◌==◌, ◌||◌, ◌∷◌,
}
use streamcore_server.Strings.{Unicode, trim_space, member}
use streamcore_server.Pipeline.Reflex.Matching.{normalize_partial}

pub record CaptureSpec : Type 0 where
  pub arg : Text
  pub after : List Text

pub record PartialSpec : Type 0 where
  pub matches : List Text
  pub starts_with : List Text
  pub once_per_turn : Bool
  pub capture : Option CaptureSpec
  pub settle_ms : ℕ

pub record SpeakRule (V : Type 0) : Type 0 where
  pub when : Map V
  pub speak : Text

pub record DispatchSpec (V : Type 0) : Type 0 where
  pub topic : Text
  pub payload : Map V
  pub speak : Text
  pub omit_zero : Bool
  pub speak_when : List (SpeakRule V)

pub record ToolSpec (V : Type 0) : Type 0 where
  pub name : Text
  pub description : Text
  pub parameters_raw : Option V
  pub confirmation_required : Bool
  pub thinking_sound : Bool
  pub requires : List Text
  pub internal : Bool
  pub confirmation_prompt : Text
  pub dispatch : Option (DispatchSpec V)
  pub on_partial : Option PartialSpec

pub record Manifest (V : Type 0) : Type 0 where
  pub name : Text
  pub description : Text
  pub parameters_raw : Option V
  pub confirmation_required : Bool
  pub thinking_sound : Bool
  pub requires : List Text
  pub dispatch : Option (DispatchSpec V)
  pub tools : List (ToolSpec V)
  pub enabled : Option Bool
  pub language : Text
  pub entrypoint : Text
  pub exec : List Text
  pub timeout_ms : ℕ
  pub events : List Text
  pub config : Text

-- The errors of Validate and of a PartialSpec's validate.
pub data Invalid : Type 0 where
  no_name no_tools needless_events unsupported_language : Invalid
  unnamed_tool : ℕ → Invalid
  duplicate_tool no_topic needs_process partial_without_dispatch nothing_to_match : Text → Invalid
  no_arg no_anchor empty_anchor needless_settle empty_phrase : Text → Invalid

abbrev pub blank : Text → Bool
blank s = is_empty (trim_space s)

abbrev pub any_blank : List Text → Bool
any_blank [] = false
any_blank (s ∷ l) = blank s || any_blank l

abbrev pub default_settle_ms : ℕ
default_settle_ms = 250

-- The nanoseconds of Settle.
unfoldable pub settle : Option PartialSpec → ℕ
settle none = default_settle_ms * 1_000_000
settle (some p) =
    if p.settle_ms == 0 then default_settle_ms * 1_000_000 else p.settle_ms * 1_000_000

unfoldable pub after_of : Option CaptureSpec → List Text
after_of none = []
after_of (some c) = c.after

unfoldable pub phrases : Unicode → Option PartialSpec → List Text × List Text × List Text
unfolding after_of
phrases u none = ([], [], [])
phrases u (some p) = (
  map (normalize_partial u) p.matches,
  map (normalize_partial u) p.starts_with,
  map (normalize_partial u) (after_of p.capture),
)

unfoldable pub arg : Option PartialSpec → Text
arg none = []
arg (some p) = elim p.capture [ none ↦ [] | some c ↦ c.arg ]

-- The checks of a capture.
unfoldable pub validate_capture : Text → Option CaptureSpec → ℕ → Option Invalid
validate_capture tool none settle_ms = if settle_ms == 0 then none else some (needless_settle tool)
validate_capture tool (some c) settle_ms =
    if blank c.arg
    then some (no_arg tool)
    else if is_empty c.after
    then some (no_anchor tool)
    else if any_blank c.after
    then some (empty_anchor tool)
    else none

-- The first of two errors.
abbrev pub first_error : Option Invalid → Option Invalid → Option Invalid
first_error none e = e
first_error (some i) e = some i

unfoldable pub expand_language : Text → Text → List Text
expand_language language entrypoint =
    if text_eq language (codes "python")
    then codes "python3" ∷ entrypoint ∷ []
    else if text_eq language (codes "typescript")
    then codes "npx" ∷ codes "tsx" ∷ entrypoint ∷ []
    else if text_eq language (codes "javascript")
    then codes "node" ∷ entrypoint ∷ []
    else []

module _ {V : Type 0} where
  unfoldable pub validate_partial :
      Text → Option (DispatchSpec V) → Option PartialSpec → Option Invalid
  unfolding validate_capture
  validate_partial tool d none = none
  validate_partial tool none (some p) = some (partial_without_dispatch tool)
  validate_partial tool (some d) (some p) =
      if is_empty p.matches && is_empty p.starts_with && not (is_some p.capture)
      then some (nothing_to_match tool)
      else first_error (validate_capture tool p.capture p.settle_ms)
          (if any_blank (p.matches ++ p.starts_with) then some (empty_phrase tool) else none)

  unfoldable pub dispatches_blank : Option (DispatchSpec V) → Bool
  dispatches_blank none = false
  dispatches_blank (some d) = blank d.topic

  -- The first loop of Validate, with the names that it has seen.
  unfoldable pub validate_tools : ℕ → List Text → List (ToolSpec V) → Option Invalid
  unfolding dispatches_blank
  validate_tools i seen [] = none
  validate_tools i seen (t ∷ ts) =
      let rest = validate_tools (suc i) (t.name ∷ seen) ts in
      if is_empty t.name
      then some (unnamed_tool i)
      else if member t.name seen
      then some (duplicate_tool t.name)
      else if dispatches_blank t.dispatch
      then some (no_topic t.name)
      else first_error (validate_partial t.name t.dispatch t.on_partial) rest

  -- The second loop.
  unfoldable pub validate_processless : List (ToolSpec V) → Option Invalid
  validate_processless [] = none
  validate_processless (t ∷ ts) =
      if is_some t.dispatch then validate_processless ts else some (needs_process t.name)

  unfoldable pub needs_a_process : Manifest V → Bool
  needs_a_process m = not (is_empty m.exec)

  unfoldable pub validate : Manifest V → Option Invalid
  unfolding validate_tools validate_processless needs_a_process
  validate m =
      if blank m.name
      then some no_name
      else if is_empty m.tools && is_empty m.events && not (needs_a_process m)
      then some no_tools
      else first_error (validate_tools 0 [] m.tools) (
          if needs_a_process m
          then none
          else first_error (validate_processless m.tools) (
              if not (is_empty m.events)
              then some needless_events
              else if not (is_empty m.language) && not (is_empty m.entrypoint)
              then some unsupported_language
              else none))

  unfoldable pub describes_tool : Manifest V → Bool
  describes_tool m = is_some m.parameters_raw || is_some m.dispatch || not (is_empty m.requires)

  -- The one tool that the top level describes.
  unfoldable pub single_tool : Manifest V → ToolSpec V
  single_tool m = record {
    name = m.name;
    description = m.description;
    parameters_raw = m.parameters_raw;
    confirmation_required = m.confirmation_required;
    thinking_sound = m.thinking_sound;
    requires = m.requires;
    internal = false;
    confirmation_prompt = [];
    dispatch = m.dispatch;
    on_partial = none;
  }

  unfoldable pub fold_tool : Manifest V → Manifest V
  unfolding describes_tool single_tool
  fold_tool m =
      if is_empty m.tools && not (is_empty m.name) && describes_tool m
      then record m { tools = single_tool m ∷ [] }
      else m

  unfoldable pub fold_exec : Manifest V → Manifest V
  unfolding expand_language
  fold_exec m =
      if is_empty m.exec && not (is_empty m.entrypoint)
      then record m { exec = expand_language m.language m.entrypoint }
      else m

  unfoldable pub normalize : Manifest V → Manifest V
  unfolding fold_tool fold_exec
  normalize m = fold_exec (fold_tool m)

-- What a table of config.toml may set.
pub record Overrides : Type 0 where
  pub enabled : Option Bool
  pub timeout_ms : Option ℕ

abbrev pub default_execute_timeout : ℕ
default_execute_timeout = 30 * 1_000_000_000

module _ {V : Type 0} (read : Text → Overrides) where
  unfoldable pub overrides : Manifest V → Overrides
  overrides m =
      if is_empty m.config then record { enabled = none; timeout_ms = none } else read m.config

  unfoldable pub is_enabled : Manifest V → Bool
  unfolding overrides
  is_enabled m = elim (overrides m).enabled [
    | some e ↦ e
    | none ↦ elim m.enabled [ some e ↦ e | none ↦ true ]
  ]

  unfoldable pub timeout : Manifest V → ℕ
  unfolding overrides
  timeout m = elim (overrides m).timeout_ms [
    | some (suc n) ↦ suc n * 1_000_000
    | _ ↦ if m.timeout_ms == 0 then default_execute_timeout else m.timeout_ms * 1_000_000
  ]
