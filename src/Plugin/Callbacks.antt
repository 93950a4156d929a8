-- ===== src/Plugin/Callbacks.antt =====
-- internal/plugin/callbacks.go, and callbacks of internal/plugin/session.go: what a plugin asks the server for.
-- What encoding/json reads of a message's parameters is a parameter, and so is what a conversation or a tool answers;
-- none is an error.
pub mod Permitted
use streamcore_server.Base.{
  Bool, List, Option, Text, [], codes, false, if◌then◌else◌, is_empty, none, some, text_eq, ℕ, ◌||◌,
  ◌∷◌,
}
use streamcore_server.Plugin.Manifest.{ToolSpec, blank}
use streamcore_server.Plugin.Dispatch.{Value}
use streamcore_server.Pipeline.Reflex.Dedup.{Emission}
use streamcore_server.Plugin.Manager.{
  Tool, Manager, Called, unknown_tool, needs_confirmation, runs, call_tool, sink,
}

-- inboundMessage. An empty id is an absent one.
pub record Inbound : Type 0 where
  pub method : Text
  pub params : Text
  pub id : Text

-- What a message asks for, in a session.
pub data Request : Type 0 where
  emits : Text → Emission → Request
  calls : Text → Text → Text → Request
  -- The system prompt and the prompt.
  completes : Text → Text → Text → Request
  searches : Text → Text → ℕ → Request

-- Unmarshal into the parameters of each method; the request has its session first.
pub record Params : Type 0 where
  pub emission : Text → Option (Text × Emission)
  pub tool_call : Text → Option (Text × Text × Text)
  pub completion : Text → Option (Text × Text × Text)
  pub search : Text → Option (Text × Text × ℕ)

unfoldable pub owns_tool : {V : Type 0} → Text → List (ToolSpec V) → Bool
owns_tool name [] = false
owns_tool name (s ∷ ss) = text_eq s.name name || owns_tool name ss

module _ (p : Params) where
  unfoldable pub serve_emit : Text → Option Request
  serve_emit raw = elim (p.emission raw) [
    | none ↦ none
    | some (session, e) ↦
        if is_empty e.topic || is_empty session then none else some (emits session e)
  ]

  unfoldable pub serve_tool_call : {V : Type 0} → List (ToolSpec V) → Text → Option Request
  unfolding owns_tool
  serve_tool_call own raw = elim (p.tool_call raw) [
    | none ↦ none
    | some (session, name, args) ↦
        if is_empty name || owns_tool name own then none else some (calls session name args)
  ]

  unfoldable pub serve_complete : Text → Option Request
  serve_complete raw = elim (p.completion raw) [
    | none ↦ none
    | some (session, system, prompt) ↦
        if is_empty prompt then none else some (completes session system prompt)
  ]

  unfoldable pub serve_search : Text → Option Request
  serve_search raw = elim (p.search raw) [
    | none ↦ none
    | some (session, query, limit) ↦
        if blank query then none else some (searches session query limit)
  ]

  -- The request that serve passes on, or an error before it.
  unfoldable pub request_of : {V : Type 0} → List (ToolSpec V) → Inbound → Option Request
  unfolding serve_emit serve_tool_call serve_complete serve_search
  request_of own m =
      if text_eq m.method (codes "emit")
      then serve_emit m.params
      else if text_eq m.method (codes "tools/call")
      then serve_tool_call own m.params
      else if text_eq m.method (codes "llm/complete")
      then serve_complete m.params
      else if text_eq m.method (codes "rag/search")
      then serve_search m.params
      else none

-- The session whose sink a request wants.
abbrev pub at_sink : (ℕ → Request → Option Text) → Request → Option ℕ → Option Text
at_sink answers q none = none
at_sink answers q (some k) = answers k q

module _ {F : Type 0} (answers : ℕ → Request → Option Text)
    (executes : Tool F → Text → Text → Option Text) where
  abbrev pub called : Text → Called F → Option Text
  called session unknown_tool = none
  called session needs_confirmation = none
  called session (runs t args) = executes t session args

  -- The callbacks that the manager installs.
  unfoldable pub callback : Manager F → Request → Option Text
  unfolding sink call_tool
  callback m (emits session e) = at_sink answers (emits session e) (sink session m)
  callback m (calls session name args) = called session (call_tool name args m)
  callback m (completes session system prompt) =
      at_sink answers (completes session system prompt) (sink session m)
  callback m (searches session query limit) =
      at_sink answers (searches session query limit) (sink session m)

  unfoldable pub serve : Params → List (ToolSpec (Value F)) → Manager F → Inbound → Option Text
  unfolding request_of callback
  serve p own m msg = elim (request_of p own msg) [ none ↦ none | some q ↦ callback m q ]

  -- The reply to a message that was decoded: its id, and the result or an error.
  unfoldable pub handle_inbound :
      Params → List (ToolSpec (Value F)) → Manager F → Option Inbound → Option (Text × Option Text)
  unfolding serve
  handle_inbound p own m none = none
  handle_inbound p own m (some msg) =
      if is_empty msg.id then none else some (msg.id, serve p own m msg)
