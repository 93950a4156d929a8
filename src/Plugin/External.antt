-- ===== src/Plugin/External.antt =====
-- internal/plugin/tool.go: the tools of a process, what they capture from the client, and the prompt of a confirmation. What encoding/json
-- and fmt make of a value, and what the client supplies, are parameters; none is an error. Arguments that are the value null, whose
-- nil map the code may write to, are left out, and the server can always ask a client.
pub mod Filled
use streamcore_server.Base.{
  Bool, List, Map, Option, Text, [], codes, false, if◌then◌else◌, insert, is_empty, leb, lookup,
  none, not, some, true, ℕ, ◌&&◌, ◌++◌, ◌==◌, ◌||◌, ◌∷◌,
}
use streamcore_server.Strings.{contains}

pub record Values (V : Type 0) : Type 0 where
  pub decode : Text → Option (Map V)
  pub encode : Map V → Option Text
  pub is_nil : V → Bool
  pub sprint : V → Text

pub data CaptureError : Type 0 where
  not_supplied not_read : Text → CaptureError
  not_encoded : CaptureError

pub data Captured (A : Type 0) : Type 0 where
  got : A → Captured A
  failed : CaptureError → Captured A

-- The letters, digits and the line of the placeholder's expression.
abbrev pub is_word : ℕ → Bool
is_word c =
    (leb b'A' c && leb c b'Z')
    || (leb b'a' c && leb c b'z')
    || (leb b'0' c && leb c b'9')
    || c == b'_'

module _ {V : Type 0} where
  unfoldable pub merge : Map V → Map V → Map V
  merge [] fields = fields
  merge ((k, v) ∷ extra) fields = merge extra (insert k v fields)

  unfoldable pub supply : Values V → Text → Option Text → Captured (Map V)
  supply j capability none = failed (not_supplied capability)
  supply j capability (some raw) = elim (j.decode raw) [
    | none ↦ failed (not_read capability)
    | some extra ↦ got extra
  ]

  -- The loop over the requirements.
  unfoldable pub capture_each :
      Values V → (Text → Option Text) → List Text → Map V → Captured (Map V)
  unfolding merge supply
  capture_each j supplies [] fields = got fields
  capture_each j supplies (r ∷ rs) fields = elim (supply j r (supplies r)) [
    | failed e ↦ failed e
    | got extra ↦ capture_each j supplies rs (merge extra fields)
  ]

  unfoldable pub given_fields : Values V → Text → Map V
  given_fields j params =
      if is_empty params then [] else elim (j.decode params) [ none ↦ [] | some m ↦ m ]

  abbrev pub encoded : Values V → Captured (Map V) → Captured Text
  encoded j (failed e) = failed e
  encoded j (got m) = elim (j.encode m) [ none ↦ failed not_encoded | some s ↦ got s ]

  unfoldable pub capture : Values V → (Text → Option Text) → List Text → Text → Captured Text
  unfolding capture_each given_fields
  capture j supplies requires params =
      if is_empty requires
      then got params
      else encoded j (capture_each j supplies requires (given_fields j params))

  -- ExecuteInSession: a capture that fails is said, and else the process is asked.
  unfoldable pub execute_in_session :
      Values V
      → (Text → Option Text)
      → (CaptureError → Text)
      → (Text → Option Text)
      → List Text
      → Text
      → Option Text
  unfolding capture
  execute_in_session j supplies says runs requires params =
      elim (capture j supplies requires params) [ failed e ↦ some (says e) | got args ↦ runs args ]

  -- What stands for a placeholder.
  unfoldable pub value_of : Values V → Map V → Text → Text
  value_of j fields name = elim (lookup name fields) [
    | none ↦ []
    | some v ↦ if j.is_nil v then [] else j.sprint v
  ]

  -- ReplaceAllStringFunc; what follows an open brace is kept until it is known to be no placeholder.
  unfoldable pub fill : Values V → Map V → Option Text → Text → Text
  unfolding value_of
  fill j fields none [] = []
  fill j fields (some w) [] = b'{' ∷ w
  fill j fields none (c ∷ s) =
      if c == b'{' then fill j fields (some []) s else c ∷ fill j fields none s
  fill j fields (some w) (c ∷ s) = elim (is_word c) [
    | true ↦ fill j fields (some (w ++ (c ∷ []))) s
    | false ↦ elim (c == b'{') [
      | true ↦ (b'{' ∷ w) ++ fill j fields (some []) s
      | false ↦ elim (c == b'}' && not (is_empty w)) [
        | true ↦ value_of j fields w ++ fill j fields none s
        | false ↦ (b'{' ∷ w) ++ (c ∷ fill j fields none s)
      ]
    ]
  ]

  unfoldable pub render_prompt : Values V → Text → Text → Text
  unfolding fill
  render_prompt j template params =
      if is_empty template || not (contains template (codes "{"))
      then template
      else elim (j.decode params) [ none ↦ template | some fields ↦ fill j fields none template ]
