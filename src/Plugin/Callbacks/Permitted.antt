-- ===== src/Plugin/Callbacks/Permitted.antt =====
-- internal/plugin/callbacks.go: what a plugin's message can reach.
use streamcore_server.Base.{
  Bool-cases, List, Option, Option-cases, Text, [], arith, codes, false, inl, inr, some, subst,
  text_eq, ℕ, ◌≡◌, ◌≢◌,
}
use streamcore_server.Plugin.Manifest.{ToolSpec, blank}
use streamcore_server.Plugin.Dispatch.{Value}
use streamcore_server.Plugin.Manager.{Tool, Manager, call_tool, sink, lookup_tool, spec_of}
use streamcore_server.Plugin.Callbacks.{
  Inbound, Request, emits, calls, completes, searches, Params, owns_tool, serve_emit,
  serve_tool_call, serve_complete, serve_search, request_of, at_sink, called, callback, serve,
}

module _ {F : Type 0} where
  -- The conversation is bound.
  abbrev pub Live : Manager F → Text → Type 0
  Live m session = (k : ℕ) × (sink session m ≡ some k)

  -- What a plugin with these tools may ask of a manager.
  abbrev pub Permitted : List (ToolSpec (Value F)) → Manager F → Request → Type 0
  Permitted own m (emits session e) = (e.topic ≢ []) × (session ≢ []) × Live m session
  Permitted own m (calls session name args) =
      (name ≢ [])
      × (owns_tool name own ≡ false)
      × (t : Tool F) × (lookup_tool name m ≡ some t)
      × ((spec_of t).confirmation_required ≡ false)
  Permitted own m (completes session system prompt) = (prompt ≢ []) × Live m session
  Permitted own m (searches session query limit) = (blank query ≡ false) × Live m session

  -- The guards of the methods alone.
  abbrev Asked : List (ToolSpec (Value F)) → Request → Type 0
  Asked own (emits session e) = (e.topic ≢ []) × (session ≢ [])
  Asked own (calls session name args) = (name ≢ []) × (owns_tool name own ≡ false)
  Asked own (completes session system prompt) = prompt ≢ []
  Asked own (searches session query limit) = blank query ≡ false

  module _ (p : Params) (own : List (ToolSpec (Value F))) where
    emit-Asked : (raw : Text) (q : Request) → serve_emit p raw ≡ some q → Asked own q
    unfolding serve_emit
    emit-Asked raw q h = elim (Option-cases (p.emission raw)) [
      | inl e ↦ absurd (ground (arith, e))
      | inr ((session, x), e) ↦
          let g : emits session x ≡ q = ground (arith, e) in
          subst (Asked own) g (ground (arith, e), ground (arith, e))
    ]

    tool_call-Asked : (raw : Text) (q : Request) → serve_tool_call p own raw ≡ some q → Asked own q
    unfolding serve_tool_call
    tool_call-Asked raw q h = elim (Option-cases (p.tool_call raw)) [
      | inl e ↦ absurd (ground (arith, e))
      | inr ((session, name, args), e) ↦
          let g : calls session name args ≡ q = ground (arith, e) in
          subst (Asked own) g (ground (arith, e), ground (arith, e))
    ]

    complete-Asked : (raw : Text) (q : Request) → serve_complete p raw ≡ some q → Asked own q
    unfolding serve_complete
    complete-Asked raw q h = elim (Option-cases (p.completion raw)) [
      | inl e ↦ absurd (ground (arith, e))
      | inr ((session, system, prompt), e) ↦
          let g : completes session system prompt ≡ q = ground (arith, e) in
          let n : prompt ≢ [] = ground (arith, e) in subst (Asked own) g n
    ]

    search-Asked : (raw : Text) (q : Request) → serve_search p raw ≡ some q → Asked own q
    unfolding serve_search
    search-Asked raw q h = elim (Option-cases (p.search raw)) [
      | inl e ↦ absurd (ground (arith, e))
      | inr ((session, query, limit), e) ↦
          let g : searches session query limit ≡ q = ground (arith, e) in
          let n : blank query ≡ false = ground (arith, e) in subst (Asked own) g n
    ]

    request-Asked : (m : Inbound) (q : Request) → request_of p own m ≡ some q → Asked own q
    unfolding request_of
    request-Asked m q h = elim (Bool-cases (text_eq m.method (codes "emit"))) [
      | inl a ↦ emit-Asked m.params q (ground (arith, a))
      | inr a ↦ elim (Bool-cases (text_eq m.method (codes "tools/call"))) [
        | inl b ↦ tool_call-Asked m.params q (ground (arith, a, b))
        | inr b ↦ elim (Bool-cases (text_eq m.method (codes "llm/complete"))) [
          | inl c ↦ complete-Asked m.params q (ground (arith, a, b, c))
          | inr c ↦ elim (Bool-cases (text_eq m.method (codes "rag/search"))) [
            | inl d ↦ search-Asked m.params q (ground (arith, a, b, c, d))
            | inr d ↦ absurd (ground (arith, a, b, c, d))
          ]
        ]
      ]
    ]

  module _ (answers : ℕ → Request → Option Text)
      (executes : Tool F → Text → Text → Option Text) where
    at_sink-Live :
        (m : Manager F) (session : Text) (q : Request) (text : Text)
        → at_sink answers q (sink session m) ≡ some text
        → Live m session
    at_sink-Live m session q text h = elim (Option-cases (sink session m)) [
      | inl e ↦ absurd (ground (arith, e))
      | inr (k, e) ↦ (k, e)
    ]

    called-open :
        (m : Manager F) (session name args text : Text)
        → called answers executes session (call_tool name args m) ≡ some text
        → (t : Tool F) × (lookup_tool name m ≡ some t) × ((spec_of t).confirmation_required ≡ false)
    unfolding call_tool
    called-open m session name args text h = elim (Option-cases (lookup_tool name m)) [
      | inl e ↦ absurd (ground (arith, e))
      | inr (t, e) ↦ elim (Bool-cases (spec_of t).confirmation_required) [
        | inr b ↦ (t, e, b)
        | inl b ↦ absurd (ground (arith, e, b))
      ]
    ]

    callback-Permitted :
        (own : List (ToolSpec (Value F))) (m : Manager F) (q : Request) (text : Text)
        → Asked own q
        → callback answers executes m q ≡ some text
        → Permitted own m q
    unfolding callback
    callback-Permitted own m (emits session e) text (a, b) h =
        (a, b, at_sink-Live m session (emits session e) text h)
    callback-Permitted own m (calls session name args) text (a, b) h =
        let (t, l, c) = called-open m session name args text h in (a, b, t, l, c)
    callback-Permitted own m (completes session system prompt) text a h =
        (a, at_sink-Live m session (completes session system prompt) text h)
    callback-Permitted own m (searches session query limit) text a h =
        (a, at_sink-Live m session (searches session query limit) text h)

    -- If the server answers a plugin's message without an error, the message asked for one of four things: to send a packet
    -- with a topic to a conversation that it names and that is bound; to run a registered tool of another plugin which does not
    -- ask for a confirmation; or for a completion of a prompt, or a search that is not blank, in a conversation that is bound.
    pub serve-Permitted :
        (p : Params) (own : List (ToolSpec (Value F))) (m : Manager F) (msg : Inbound) (text : Text)
        → serve answers executes p own m msg ≡ some text
        → (q : Request) × (request_of p own msg ≡ some q) × Permitted own m q
    unfolding serve
    serve-Permitted p own m msg text h = elim (Option-cases (request_of p own msg)) [
      | inl e ↦ absurd (ground (arith, e))
      | inr (q, e) ↦
          let c : callback answers executes m q ≡ some text = ground (arith, e, h) in
          (q, e, callback-Permitted own m q text (request-Asked p own msg q e) c)
    ]
