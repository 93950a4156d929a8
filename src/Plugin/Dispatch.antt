-- ===== src/Plugin/Dispatch.antt =====
-- internal/plugin/dispatch.go, and Parameters of internal/plugin/manifest.go: tools that turn their
-- arguments into one packet. A decoded value keeps a number as the model wrote it; an array or an object
-- is its text. The encoders, the decoders and Go's float64 are parameters. The maps are association
-- lists, and an iteration goes through their entries.
pub mod Packet
pub mod Bounds
use streamcore_server.Base.{
  Bool, List, Map, Option, Text, [], codes, false, if◌then◌else◌, insert, is_empty, is_some, lookup,
  none, not, some, sweep, text_eq, true, ℕ, ◌&&◌, ◌∷◌,
}
use streamcore_server.Plugin.Manifest.{ToolSpec, DispatchSpec, SpeakRule, blank}
use streamcore_server.Plugin.Result.{Result, ResultJson}

pub data Value (F : Type 0) : Type 0 where
  null : Value F
  bool : Bool → Value F
  string : Text → Value F
  json_number : Text → Value F
  float : F → Value F
  -- The sign, and the magnitude.
  int : Bool → ℕ → Value F
  other : Text → Value F

-- What the code uses of float64 and of its text forms.
pub record Floats (F : Type 0) : Type 0 where
  pub parse : Text → Option F
  pub of_int : Bool → ℕ → F
  pub to_int : F → Bool × ℕ
  pub lt : F → F → Bool
  pub eq : F → F → Bool
  pub zero : F
  pub sprint : Value F → Text

pub record Property : Type 0 where
  pub kind : Text
  pub minimum : Option Text
  pub maximum : Option Text

pub record Schema : Type 0 where
  pub additional_properties : Option Bool
  pub properties : Map Property

-- encoding/json, at the types that the code gives it.
pub record Json (F : Type 0) : Type 0 where
  -- The value null is decoded to a nil map, which is none.
  pub decode_fields : Text → Option (Option (Map (Value F)))
  pub encode_fields : Map (Value F) → Option Text
  pub encode_value : Value F → Option Text
  pub decode_schema : Text → Option Schema

pub data Failure : Type 0 where
  bad_arguments bad_payload bad_result : Failure
  -- A write to a nil map.
  panicked : Failure

pub data Outcome (A : Type 0) : Type 0 where
  ok : A → Outcome A
  failed : Failure → Outcome A

abbrev pub is_open : Option Bool → Bool
is_open none = false
is_open (some b) = b

module _ {F : Type 0} where
  -- NewDispatchTool: none is an error.
  unfoldable pub new_dispatch_tool : ToolSpec (Value F) → Option (ToolSpec (Value F))
  new_dispatch_tool spec = elim spec.dispatch [
    | none ↦ none
    | some d ↦ if blank d.topic then none else some spec
  ]

  unfoldable pub parameters : Json F → ToolSpec (Value F) → Text
  parameters j spec =
      let empty = codes "{\"type\":\"object\",\"properties\":{}}" in
      elim spec.parameters_raw [
        | none ↦ empty
        | some v ↦ elim (j.encode_value v) [ none ↦ empty | some s ↦ s ]
      ]

  unfoldable pub decode_args : Json F → Text → Option (Option (Map (Value F)))
  decode_args j params = if is_empty params then some (some []) else j.decode_fields params

module _ {F : Type 0} (f : Floats F) where
  unfoldable pub to_float : Value F → Option F
  to_float (json_number s) = f.parse s
  to_float (float x) = some x
  to_float (int sign n) = some (f.of_int sign n)
  to_float null = none
  to_float (bool b) = none
  to_float (string s) = none
  to_float (other s) = none

  unfoldable pub zero_number : Option F → Bool
  zero_number none = false
  zero_number (some x) = f.eq x f.zero

  unfoldable pub is_zero : Value F → Bool
  unfolding zero_number
  is_zero null = true
  is_zero (bool b) = not b
  is_zero (string s) = is_empty s
  is_zero v = zero_number (to_float v)

  unfoldable pub same_number : F → Option F → Bool
  same_number x none = false
  same_number x (some y) = f.eq x y

  unfoldable pub value_equals : Value F → Value F → Bool
  unfolding same_number
  value_equals got want = elim (to_float got) [
    | some x ↦ same_number x (to_float want)
    | none ↦ text_eq (f.sprint got) (f.sprint want)
  ]

  unfoldable pub matches_field : Option (Value F) → Value F → Bool
  matches_field none want = false
  matches_field (some got) want = value_equals got want

  unfoldable pub matches_each : Map (Value F) → Map (Value F) → Bool
  unfolding matches_field
  matches_each fields [] = true
  matches_each fields ((k, want) ∷ when) =
      matches_field (lookup k fields) want && matches_each fields when

  unfoldable pub matches_all : Map (Value F) → Map (Value F) → Bool
  unfolding matches_each
  matches_all fields when = not (is_empty when) && matches_each fields when

  -- The loop of speak.
  unfoldable pub speak : Map (Value F) → List (SpeakRule (Value F)) → Text → Text
  unfolding matches_all
  speak fields [] otherwise = otherwise
  speak fields (r ∷ rules) otherwise =
      let rest = speak fields rules otherwise in if matches_all fields r.when then r.speak else rest

  -- A bound that does not parse binds nothing.
  unfoldable pub bound : Option Text → Option F
  bound none = none
  bound (some s) = f.parse s

  unfoldable pub raise_to : Option F → F → F
  raise_to none x = x
  raise_to (some lo) x = if f.lt x lo then lo else x

  unfoldable pub lower_to : Option F → F → F
  lower_to none x = x
  lower_to (some hi) x = if f.lt hi x then hi else x

  unfoldable pub clamp : Property → F → F
  unfolding raise_to lower_to bound
  clamp p x = lower_to (bound p.maximum) (raise_to (bound p.minimum) x)

  unfoldable pub put_clamped : Property → F → F → Value F → Value F
  put_clamped p x clamped v =
      if f.eq clamped x
      then v
      else if text_eq p.kind (codes "integer")
      then (let (sign, n) = f.to_int clamped in int sign n)
      else float clamped

  -- What one property makes of the argument that it declares.
  unfoldable pub clamp_value : Property → Value F → Value F
  unfolding clamp put_clamped
  clamp_value p v = elim (to_float v) [ none ↦ v | some x ↦ put_clamped p x (clamp p x) v ]

  unfoldable pub clamp_field : Text → Property → Map (Value F) → Map (Value F)
  unfolding clamp_value
  clamp_field k p fields = elim (lookup k fields) [
    | none ↦ fields
    | some v ↦ insert k (clamp_value p v) fields
  ]

  unfoldable pub clamp_fields : Map Property → Map (Value F) → Map (Value F)
  unfolding clamp_field
  clamp_fields [] fields = fields
  clamp_fields ((k, p) ∷ ps) fields = clamp_fields ps (clamp_field k p fields)

  -- The entries whose key passes the test.
  unfoldable pub keep_keys : (Text → Bool) → Map (Value F) → Map (Value F)
  keep_keys d [] = []
  keep_keys d ((k, v) ∷ m) = if d k then (k, v) ∷ keep_keys d m else keep_keys d m

  unfoldable pub drop_undeclared : Schema → Map (Value F) → Map (Value F)
  unfolding keep_keys
  drop_undeclared s fields =
      if is_open s.additional_properties
      then fields
      else keep_keys (λ k. is_some (lookup k s.properties)) fields

  unfoldable pub apply_schema : Json F → Text → Map (Value F) → Map (Value F)
  unfolding drop_undeclared clamp_fields
  apply_schema j schema fields = elim (j.decode_schema schema) [
    | none ↦ fields
    | some s ↦ clamp_fields s.properties (drop_undeclared s fields)
  ]

  -- Constants are put over the arguments.
  unfoldable pub put_constants : Map (Value F) → Map (Value F) → Map (Value F)
  put_constants [] fields = fields
  put_constants ((k, v) ∷ payload) fields = put_constants payload (insert k v fields)

  unfoldable pub omit_zeros : Bool → Map (Value F) → Map (Value F)
  omit_zeros omit fields = if omit then sweep is_zero fields else fields

  -- The fields of the packet, from the decoded arguments.
  unfoldable pub packet_fields :
      Json F → ToolSpec (Value F) → DispatchSpec (Value F) → Map (Value F) → Map (Value F)
  unfolding apply_schema omit_zeros put_constants parameters
  packet_fields j spec d fields =
      put_constants d.payload (omit_zeros d.omit_zero (apply_schema j (parameters j spec) fields))

  unfoldable pub acknowledgement :
      Json F → ToolSpec (Value F) → DispatchSpec (Value F) → Map (Value F) → Text
  unfolding apply_schema speak parameters
  acknowledgement j spec d fields =
      speak (apply_schema j (parameters j spec) fields) d.speak_when d.speak

  abbrev pub encoded : Option Text → Outcome Text
  encoded none = failed bad_result
  encoded (some s) = ok s

  -- The payload, from the map that the decoder leaves. A nil map is encoded as null, unless a constant is put into it.
  unfoldable pub payload_of :
      Json F → ToolSpec (Value F) → DispatchSpec (Value F) → Option (Map (Value F)) → Outcome Text
  unfolding packet_fields
  payload_of j spec d none = if is_empty d.payload then ok (codes "null") else failed panicked
  payload_of j spec d (some fields) = elim (j.encode_fields (packet_fields j spec d fields)) [
    | none ↦ failed bad_payload
    | some payload ↦ ok payload
  ]

  abbrev pub entries : Option (Map (Value F)) → Map (Value F)
  entries none = []
  entries (some fields) = fields

  -- Execute of a tool with this dispatch block.
  unfoldable pub execute :
      Json F → ResultJson → ToolSpec (Value F) → DispatchSpec (Value F) → Text → Outcome Text
  unfolding decode_args payload_of acknowledgement
  execute j results spec d params = elim (decode_args j params) [
    | none ↦ failed bad_arguments
    | some fields ↦ elim (payload_of j spec d fields) [
      | failed e ↦ failed e
      | ok payload ↦ encoded (
          results.encode (record {
            speak = acknowledgement j spec d (entries fields);
            emit = record { topic = d.topic; payload = payload } ∷ [];
          }))
    ]
  ]
