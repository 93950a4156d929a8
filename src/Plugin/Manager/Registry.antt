-- ===== src/Plugin/Manager/Registry.antt =====
-- internal/plugin/manager.go: what holds of the registry whatever is loaded, revised and bound.
use streamcore_server.Base.{
  Bool, Bool-cases, Distinct, List, Map, Option, Option-cases, Text, [], arith, delete, false,
  if-either, inl, inr, insert, insert-Distinct, is_empty, lookup, none, refl, some, subst, suc,
  sweep, sweep-Distinct, sym, true, ℕ, ◌++◌, ◌∷◌, ◌≡◌,
}
use streamcore_server.Plugin.Manifest.{
  ToolSpec, Manifest, Overrides, validate, is_enabled, needs_a_process,
}
use streamcore_server.Plugin.Dispatch.{Value, new_dispatch_tool}
use streamcore_server.Plugin.Manager.{
  Tool, Manager, Host, dispatching, in_process, spec_of, register, register_tool,
  register_event_handler, host_tools, owned_by, insert_tools, replace_tools, register_host_tools,
  register_dispatch, load, load_enabled, load_host, add_host, revise, revise_all, announce_ready,
  bind_session, unbind_session, set_plugin_settings, new_manager, config_of, loaded, insert_handler,
}
use streamcore_server.Plugin.Manager.Hosts.{
  has_host, all_below, ids_differ, all_below-suc, all_below-append, ids_differ-append, AllIn,
  AllIn-self, has_host-append,
}
use streamcore_server.Plugin.Manager.Sound.{
  sound, all_fit, all_fit-insert, all_fit-sweep, all_fit-append, insert_tools-fit,
  new_dispatch_tool-sound, AllSound, host_tools-AllSound,
}

module _ {F : Type 0} where
  pub record IsOrderly (m : Manager F) : Type 0 where
    pub distinct : Distinct m.tools
    pub fit : all_fit m.hosts m.tools ≡ true
    pub below : all_below m.next_host m.hosts ≡ true
    pub differ : ids_differ m.hosts ≡ true

  -- The steps of a manager. A tool that RegisterTool is given answers in the process.
  pub data Step : Manager F → Manager F → Type 0 where
    registers :
        (m : Manager F) (s : ToolSpec (Value F)) (events : Option (List Text))
        → Step m (register_tool (in_process s) events m)
    handles :
        (m : Manager F) (name : Text) (events : Option (List Text))
        → Step m (register_event_handler name events m)
    loads :
        (m : Manager F) (read : Text → Overrides) (mf : Manifest (Value F))
        (started : Option (List (ToolSpec (Value F))))
        → Step m (load read mf started m).0
    readies :
        (m : Manager F) (answer : ℕ → Option (Option (List (ToolSpec (Value F)))))
        → Step m (announce_ready answer m)
    sets : (m : Manager F) (s : Map (Option Text)) → Step m (set_plugin_settings s m)
    binds : (m : Manager F) (id : Text) (sink : Option ℕ) → Step m (bind_session id sink m)
    unbinds : (m : Manager F) (id : Text) → Step m (unbind_session id m)

  pub data Reach : Manager F → Type 0 where
    start : Reach new_manager
    more : (m m' : Manager F) → Reach m → Step m m' → Reach m'

  -- The manager with other tools, which fit.
  with_tools :
      (m : Manager F) (ts : Map (Tool F)) (hs : Map (List Text)) (c : Map Text) (b : Map ℕ)
      → IsOrderly m
      → Distinct ts
      → all_fit m.hosts ts ≡ true
      → IsOrderly (record m { tools = ts; handlers = hs; settings = c; sinks = b })
  with_tools m ts hs c b i d a = record {
    distinct = d;
    fit = a;
    below = i.below;
    differ = i.differ;
  }

  register-IsOrderly :
      (t : Tool F) (m : Manager F) → sound m.hosts t ≡ true → IsOrderly m → IsOrderly (register t m)
  unfolding register
  register-IsOrderly t m s i =
      with_tools m (insert (spec_of t).name t m.tools) m.handlers m.settings m.sinks i
        (insert-Distinct (spec_of t).name t m.tools i.distinct)
        (all_fit-insert m.hosts t m.tools s i.fit)

  register_dispatch-IsOrderly :
      (ss : List (ToolSpec (Value F))) (m : Manager F)
      → IsOrderly m
      → IsOrderly (register_dispatch ss m).0
  unfolding register_dispatch
  register_dispatch-IsOrderly [] m i = i
  register_dispatch-IsOrderly (s ∷ ss) m i = elim (Option-cases (new_dispatch_tool s)) [
    | inl n ↦ rw (n, register_dispatch) i
    | inr (s', n) ↦
        rw (n, register_dispatch)
          (register_dispatch-IsOrderly ss (register (dispatching s') m)
            (register-IsOrderly (dispatching s') m (new_dispatch_tool-sound m.hosts s s' n) i))
  ]

  replaced-fit :
      (hosts : List Host) (h : ℕ) (ts : List (Tool F)) (m : Map (Tool F))
      → AllSound hosts ts
      → Distinct m
      → all_fit hosts m ≡ true
      → Distinct (insert_tools ts (sweep (owned_by h) m))
        × (all_fit hosts (insert_tools ts (sweep (owned_by h) m)) ≡ true)
  replaced-fit hosts h ts m s d a =
      insert_tools-fit hosts ts (sweep (owned_by h) m) s (sweep-Distinct (owned_by h) m d)
        (all_fit-sweep hosts (owned_by h) m a)

  revise-IsOrderly :
      (h : ℕ) (r : Option (Option (List (ToolSpec (Value F))))) (m : Manager F)
      → has_host h m.hosts ≡ true
      → IsOrderly m
      → IsOrderly (revise h r m) × ((revise h r m).hosts ≡ m.hosts)
  unfolding revise register_host_tools replace_tools
  revise-IsOrderly h none m b i = (i, refl)
  revise-IsOrderly h (some none) m b i = (i, refl)
  revise-IsOrderly h (some (some specs)) m b i = elim (Option-cases (host_tools h specs)) [
    | inl n ↦ rw (n, revise) (i, refl)
    | inr (ts, n) ↦
        let (d, a) =
          replaced-fit m.hosts h ts m.tools (host_tools-AllSound m.hosts h specs ts b n) i.distinct
            i.fit in
        rw (n, revise)
          (
            with_tools m (insert_tools ts (sweep (owned_by h) m.tools)) m.handlers m.settings
                m.sinks i d a,
            refl,
          )
  ]

  revise_all-IsOrderly :
      (answer : ℕ → Option (Option (List (ToolSpec (Value F))))) (hs : List Host) (m : Manager F)
      → AllIn hs m.hosts
      → IsOrderly m
      → IsOrderly (revise_all answer hs m)
  unfolding revise_all
  revise_all-IsOrderly answer [] m b i = i
  revise_all-IsOrderly answer (x ∷ xs) m (b, bs) i =
      let (i', e) = revise-IsOrderly x.id (answer x.id) m b i in
      revise_all-IsOrderly answer xs (revise x.id (answer x.id) m) (subst (AllIn xs) (sym e) bs) i'

  numbered : (m : Manager F) → IsOrderly m → IsOrderly (record m { next_host = suc m.next_host })
  numbered m i = record {
    distinct = i.distinct;
    fit = i.fit;
    below = all_below-suc m.next_host m.hosts i.below;
    differ = i.differ;
  }

  load_host-IsOrderly :
      (mf : Manifest (Value F)) (started : Option (List (ToolSpec (Value F)))) (m : Manager F)
      → IsOrderly m
      → IsOrderly (load_host mf started m).0
  unfolding load_host register_host_tools replace_tools add_host
  load_host-IsOrderly mf none m i = numbered m i
  load_host-IsOrderly mf (some specs) m i = elim (Option-cases (host_tools m.next_host specs)) [
    | inl n ↦ rw (n, load_host) (numbered m i)
    | inr (ts, n) ↦
        let hosts = m.hosts ++ (record { id = m.next_host; name = mf.name } ∷ []) in
        let b : has_host m.next_host hosts ≡ true = ground (
          arith,
          has_host-append m.next_host (record { id = m.next_host; name = mf.name }) m.hosts,
        ) in
        let (d, a) =
          replaced-fit hosts m.next_host ts m.tools
            (host_tools-AllSound hosts m.next_host specs ts b n) i.distinct
            (all_fit-append (record { id = m.next_host; name = mf.name }) m.hosts m.tools i.fit) in
        rw (n, load_host)
          (record {
            distinct = d;
            fit = a;
            below = all_below-append m.next_host mf.name m.hosts i.below;
            differ = ids_differ-append m.next_host mf.name m.hosts i.below i.differ;
          })
  ]

  loaded_state : (r : Manager F × Bool) → (loaded r).0 ≡ r.0
  loaded_state (m, true) = refl
  loaded_state (m, false) = refl

  load-IsOrderly :
      (read : Text → Overrides) (mf : Manifest (Value F))
      (started : Option (List (ToolSpec (Value F)))) (m : Manager F)
      → IsOrderly m
      → IsOrderly (load read mf started m).0
  unfolding load load_enabled
  load-IsOrderly read mf started m i = elim (Option-cases (validate mf)) [
    | inr (e, v) ↦ rw (v, load) i
    | inl v ↦
        let mf' = record mf { config = config_of (lookup mf.name m.settings) } in
        elim (Bool-cases (is_enabled read mf')) [
          | inr e ↦ rw (v, e, load) i
          | inl e ↦ elim (Bool-cases (needs_a_process mf')) [
            | inl x ↦ rw (v, e, x, load) (load_host-IsOrderly mf' started m i)
            | inr x ↦
                rw (v, e, x, load)
                  (rw (loaded_state (register_dispatch mf.tools m))
                    (register_dispatch-IsOrderly mf.tools m i))
          ]
        ]
  ]

  set_plugin_settings-IsOrderly :
      (s : Map (Option Text)) (m : Manager F) → IsOrderly m → IsOrderly (set_plugin_settings s m)
  unfolding set_plugin_settings
  set_plugin_settings-IsOrderly [] m i = i
  set_plugin_settings-IsOrderly ((k, none) ∷ s) m i = set_plugin_settings-IsOrderly s m i
  set_plugin_settings-IsOrderly ((k, some t) ∷ s) m i =
      set_plugin_settings-IsOrderly s (record m { settings = insert k t m.settings })
        (with_tools m m.tools m.handlers (insert k t m.settings) m.sinks i i.distinct i.fit)

  bind_session-IsOrderly :
      (id : Text) (sink : Option ℕ) (m : Manager F)
      → IsOrderly m
      → IsOrderly (bind_session id sink m)
  unfolding bind_session
  bind_session-IsOrderly id none m i = i
  bind_session-IsOrderly id (some sink) m i =
      if-either IsOrderly (is_empty id) i
        (with_tools m m.tools m.handlers m.settings (insert id sink m.sinks) i i.distinct i.fit)

  Step-IsOrderly : (m m' : Manager F) → Step m m' → IsOrderly m → IsOrderly m'
  unfolding register_tool register_event_handler announce_ready unbind_session register sound
  Step-IsOrderly m _ (registers _ s events) i =
      let m' = register (in_process s) m in
      let i' = register-IsOrderly (in_process s) m refl i in
      with_tools m' m'.tools (insert_handler s.name events m'.handlers) m'.settings m'.sinks i'
        i'.distinct i'.fit
  Step-IsOrderly m _ (handles _ name events) i =
      with_tools m m.tools (insert_handler name events m.handlers) m.settings m.sinks i i.distinct
        i.fit
  Step-IsOrderly m _ (loads _ read mf started) i = load-IsOrderly read mf started m i
  Step-IsOrderly m _ (readies _ answer) i =
      revise_all-IsOrderly answer m.hosts m (AllIn-self m.hosts) i
  Step-IsOrderly m _ (sets _ s) i = set_plugin_settings-IsOrderly s m i
  Step-IsOrderly m _ (binds _ id sink) i = bind_session-IsOrderly id sink m i
  Step-IsOrderly m _ (unbinds _ id) i =
      with_tools m m.tools m.handlers m.settings (delete id m.sinks) i i.distinct i.fit

  -- In every state that a manager reaches by registering, loading, revising and binding, no name has two tools,
  -- every tool stands under its own name, every packet tool has a topic, and the process of every other tool that
  -- was loaded is one of those that the manager keeps, which have different numbers.
  pub Reach-IsOrderly : {m : Manager F} → Reach m → IsOrderly m
  unfolding new_manager all_fit
  Reach-IsOrderly start = record { distinct = tt; fit = refl; below = refl; differ = refl }
  Reach-IsOrderly (more m m' r s) = Step-IsOrderly m m' s (Reach-IsOrderly r)
