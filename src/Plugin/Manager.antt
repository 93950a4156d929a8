-- ===== src/Plugin/Manager.antt =====
-- internal/plugin/manager.go and internal/plugin/session.go: the registry of tools, and who may reach
-- them. A process is its number, and a conversation's sink is one too. What a process answers when it
-- starts and when it is ready is an argument. A function is a call from its start to its end.
pub mod Hosts
pub mod Sound
pub mod Registry
pub mod Replaced
pub mod Reach
pub mod Loading
use streamcore_server.Base.{
  Bool, List, Map, Option, Text, [], codes, delete, false, if◌then◌else◌, insert, is_empty, is_some,
  lookup, none, some, suc, sweep, true, ℕ, ◌++◌, ◌==◌, ◌∷◌,
}
use streamcore_server.Plugin.Manifest.{
  ToolSpec, Manifest, Overrides, Invalid, validate, is_enabled, needs_a_process,
}
use streamcore_server.Plugin.Dispatch.{Value, new_dispatch_tool}
use streamcore_server.Strings.{member}

-- A tool: data of a manifest, or of a process, or one that RegisterTool was given.
pub data Tool (F : Type 0) : Type 0 where
  dispatching : ToolSpec (Value F) → Tool F
  external : ℕ → ToolSpec (Value F) → Tool F
  in_process : ToolSpec (Value F) → Tool F

pub record Host : Type 0 where
  pub id : ℕ
  pub name : Text

pub record Manager (F : Type 0) : Type 0 where
  pub tools : Map (Tool F)
  -- What each handler subscribed to.
  pub handlers : Map (List Text)
  pub hosts : List Host
  pub settings : Map Text
  pub sinks : Map ℕ
  -- The number of the next process.
  pub next_host : ℕ

pub data LoadError : Type 0 where
  invalid : Invalid → LoadError
  bad_dispatch start_failed : LoadError

unfoldable pub insert_handler : Text → Option (List Text) → Map (List Text) → Map (List Text)
insert_handler name none hs = hs
insert_handler name (some events) hs = insert name events hs

abbrev pub config_of : Option Text → Text
config_of none = []
config_of (some c) = c

-- The handlers that a type of event reaches.
unfoldable pub subscribed : Text → Map (List Text) → List Text
subscribed kind [] = []
subscribed kind ((name, events) ∷ hs) =
    if member kind events then name ∷ subscribed kind hs else subscribed kind hs

-- The second loop of DispatchEvent: the outputs, and the handlers whose errors are joined.
unfoldable pub run_handlers :
    {A : Type 0} → (Text → Option (List A)) → List Text → List A × List Text
run_handlers answer [] = ([], [])
run_handlers answer (h ∷ hs) =
    let (outputs, errs) = run_handlers answer hs in
    elim (answer h) [ none ↦ (outputs, h ∷ errs) | some out ↦ (out ++ outputs, errs) ]

-- What CallTool does: refuse, or run a tool with the arguments that it gets.
pub data Called (F : Type 0) : Type 0 where
  unknown_tool needs_confirmation : Called F
  runs : Tool F → Text → Called F

-- What a function makes of a value, if there is one.
abbrev pub mapped : {A B : Type 0} → (A → B) → Option A → Option B
mapped f none = none
mapped f (some a) = some (f a)

module _ {F : Type 0} where
  unfoldable pub new_manager : Manager F
  new_manager = record {
    tools = [];
    handlers = [];
    hosts = [];
    settings = [];
    sinks = [];
    next_host = 0;
  }

  unfoldable pub spec_of : Tool F → ToolSpec (Value F)
  spec_of (dispatching s) = s
  spec_of (external h s) = s
  spec_of (in_process s) = s

  abbrev pub name_of : Tool F → Text
  unfolding spec_of
  name_of t = (spec_of t).name

  unfoldable pub is_internal : Tool F → Bool
  unfolding spec_of
  is_internal t = (spec_of t).internal

  unfoldable pub register : Tool F → Manager F → Manager F
  unfolding spec_of
  register t m = record m { tools = insert (spec_of t).name t m.tools }

  -- The events are those of a tool that is a handler as well.
  unfoldable pub register_tool : Tool F → Option (List Text) → Manager F → Manager F
  unfolding register insert_handler
  register_tool t events m =
      let m' = register t m in
      record m' { handlers = insert_handler (spec_of t).name events m'.handlers }

  unfoldable pub register_event_handler : Text → Option (List Text) → Manager F → Manager F
  unfolding insert_handler
  register_event_handler name events m = record m {
    handlers = insert_handler name events m.handlers;
  }

  unfoldable pub visible : Map (Tool F) → List (Tool F)
  unfolding is_internal
  visible [] = []
  visible ((k, t) ∷ m) = if is_internal t then visible m else t ∷ visible m

  unfoldable pub tools_of : Manager F → List (Tool F)
  unfolding visible
  tools_of m = visible m.tools

  -- Only a dispatch tool has a Partial.
  unfoldable pub listens : Tool F → Bool
  listens (dispatching s) = is_some s.on_partial
  listens (external h s) = false
  listens (in_process s) = false

  unfoldable pub listening : Map (Tool F) → List (Tool F)
  unfolding listens
  listening [] = []
  listening ((k, t) ∷ m) = if listens t then t ∷ listening m else listening m

  unfoldable pub partial_tools : Manager F → List (Tool F)
  unfolding listening
  partial_tools m = listening m.tools

  unfoldable pub lookup_tool : Text → Manager F → Option (Tool F)
  lookup_tool name m = lookup name m.tools

  unfoldable pub unless_internal : Option (Tool F) → Option (Tool F)
  unfolding is_internal
  unless_internal none = none
  unless_internal (some t) = if is_internal t then none else some t

  unfoldable pub get_tool : Text → Manager F → Option (Tool F)
  unfolding lookup_tool unless_internal
  get_tool name m = unless_internal (lookup_tool name m)

  -- The tools of a host's specs, or an error.
  unfoldable pub host_tool : ℕ → ToolSpec (Value F) → Option (Tool F)
  unfolding new_dispatch_tool
  host_tool host s =
      if is_some s.dispatch
      then mapped dispatching (new_dispatch_tool s)
      else some (external host s)

  unfoldable pub host_tools : ℕ → List (ToolSpec (Value F)) → Option (List (Tool F))
  unfolding host_tool
  host_tools host [] = some []
  host_tools host (s ∷ ss) = elim (host_tool host s) [
    | none ↦ none
    | some t ↦ mapped (λ ts. t ∷ ts) (host_tools host ss)
  ]

  unfoldable pub owned_by : ℕ → Tool F → Bool
  owned_by host (external h s) = h == host
  owned_by host (dispatching s) = false
  owned_by host (in_process s) = false

  unfoldable pub insert_tools : List (Tool F) → Map (Tool F) → Map (Tool F)
  unfolding spec_of
  insert_tools [] m = m
  insert_tools (t ∷ ts) m = insert_tools ts (insert (spec_of t).name t m)

  -- The part under the lock.
  unfoldable pub replace_tools : ℕ → List (Tool F) → Manager F → Manager F
  unfolding owned_by insert_tools
  replace_tools host ts m = record m { tools = insert_tools ts (sweep (owned_by host) m.tools) }

  unfoldable pub register_host_tools :
      ℕ → List (ToolSpec (Value F)) → Manager F → Option (Manager F)
  unfolding host_tools replace_tools
  register_host_tools host specs m = mapped (λ ts. replace_tools host ts m) (host_tools host specs)

  -- The loop over the tools of a manifest without a process. The flag says that all were built.
  unfoldable pub register_dispatch : List (ToolSpec (Value F)) → Manager F → Manager F × Bool
  unfolding new_dispatch_tool register
  register_dispatch [] m = (m, true)
  register_dispatch (s ∷ ss) m = elim (new_dispatch_tool s) [
    | none ↦ (m, false)
    | some s' ↦ register_dispatch ss (register (dispatching s') m)
  ]

  abbrev pub loaded : Manager F × Bool → Manager F × Option LoadError
  loaded (m, true) = (m, none)
  loaded (m, false) = (m, some bad_dispatch)

  -- The last section of load, once the host's tools are registered.
  unfoldable pub add_host : ℕ → Manifest (Value F) → Manager F → Manager F
  add_host host mf m = record m {
    hosts = m.hosts ++ (record { id = host; name = mf.name } ∷ []);
    handlers = if is_empty mf.events then m.handlers else insert mf.name mf.events m.handlers;
  }

  -- What follows the start of a process: none is a start that failed, and else what it advertises.
  unfoldable pub load_host :
      Manifest (Value F)
      → Option (List (ToolSpec (Value F)))
      → Manager F
      → Manager F × Option LoadError
  unfolding register_host_tools add_host
  load_host mf started m =
      let m' = record m { next_host = suc m.next_host } in
      elim started [
        | none ↦ (m', some start_failed)
        | some specs ↦ elim (register_host_tools m.next_host specs m') [
          | none ↦ (m', some bad_dispatch)
          | some m'' ↦ (add_host m.next_host mf m'', none)
        ]
      ]

  unfoldable pub load_enabled :
      Manifest (Value F)
      → Option (List (ToolSpec (Value F)))
      → Manager F
      → Manager F × Option LoadError
  unfolding needs_a_process register_dispatch load_host
  load_enabled mf started m =
      if needs_a_process mf then load_host mf started m else loaded (register_dispatch mf.tools m)

  unfoldable pub load :
      (Text → Overrides)
      → Manifest (Value F)
      → Option (List (ToolSpec (Value F)))
      → Manager F
      → Manager F × Option LoadError
  unfolding validate is_enabled load_enabled
  load read mf started m = elim (validate mf) [
    | some e ↦ (m, some (invalid e))
    | none ↦
        let mf' = record mf { config = config_of (lookup mf.name m.settings) } in
        if is_enabled read mf' then load_enabled mf' started m else (m, none)
  ]

  -- One host's answer to the ready pass: none is an error, `some none` revises nothing.
  unfoldable pub revise : ℕ → Option (Option (List (ToolSpec (Value F)))) → Manager F → Manager F
  unfolding register_host_tools
  revise host none m = m
  revise host (some none) m = m
  revise host (some (some specs)) m = elim (register_host_tools host specs m) [
    | none ↦ m
    | some m' ↦ m'
  ]

  unfoldable pub revise_all :
      (ℕ → Option (Option (List (ToolSpec (Value F))))) → List Host → Manager F → Manager F
  unfolding revise
  revise_all answer [] m = m
  revise_all answer (h ∷ hs) m = revise_all answer hs (revise h.id (answer h.id) m)

  unfoldable pub announce_ready :
      (ℕ → Option (Option (List (ToolSpec (Value F))))) → Manager F → Manager F
  unfolding revise_all
  announce_ready answer m = revise_all answer m.hosts m

  unfoldable pub bind_session : Text → Option ℕ → Manager F → Manager F
  bind_session id none m = m
  bind_session id (some sink) m =
      if is_empty id then m else record m { sinks = insert id sink m.sinks }

  unfoldable pub unbind_session : Text → Manager F → Manager F
  unbind_session id m = record m { sinks = delete id m.sinks }

  unfoldable pub sink : Text → Manager F → Option ℕ
  sink id m = lookup id m.sinks

  -- The tables that encode.
  unfoldable pub set_plugin_settings : Map (Option Text) → Manager F → Manager F
  set_plugin_settings [] m = m
  set_plugin_settings ((name, none) ∷ s) m = set_plugin_settings s m
  set_plugin_settings ((name, some t) ∷ s) m =
      set_plugin_settings s (record m { settings = insert name t m.settings })

  unfoldable pub call_tool : Text → Text → Manager F → Called F
  unfolding lookup_tool spec_of
  call_tool name args m = elim (lookup_tool name m) [
    | none ↦ unknown_tool
    | some t ↦
        if (spec_of t).confirmation_required
        then needs_confirmation
        else runs t (if is_empty args then codes "{}" else args)
  ]
