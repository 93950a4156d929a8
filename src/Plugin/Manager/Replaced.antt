-- ===== src/Plugin/Manager/Replaced.antt =====
-- internal/plugin/manager.go: what the registry holds under each name once a manifest or a host's list is
-- registered.
use streamcore_server.Base.{
  Distinct, List, Map, Option, Option-cases, Text, [], arith, false, if◌then◌else◌, inl, inr,
  insert, is_some, lookup, lookup-insert, lookup-sweep, none, refl, some, sweep, text_eq, true, ℕ,
  ◌∷◌, ◌≡◌,
}
use streamcore_server.Plugin.Manifest.{ToolSpec, dispatches_blank}
use streamcore_server.Plugin.Manifest.Accepts.{ToolsFit, AllDispatch, topic_iff}
use streamcore_server.Plugin.Dispatch.{Value, new_dispatch_tool}
use streamcore_server.Plugin.Dispatch.Packet.{over}
use streamcore_server.Plugin.Manager.{
  Tool, Manager, dispatching, external, spec_of, register, host_tool, host_tools, owned_by,
  insert_tools, replace_tools, register_host_tools, register_dispatch,
}

module _ {F : Type 0} where
  -- The last of the tools under a name.
  abbrev pub last_tool : Text → List (Tool F) → Option (Tool F)
  last_tool k [] = none
  last_tool k (t ∷ ts) = over (last_tool k ts) (if text_eq (spec_of t).name k then some t else none)

  lookup-insert_tools :
      (k : Text) (ts : List (Tool F)) (m : Map (Tool F))
      → lookup k (insert_tools ts m) ≡ over (last_tool k ts) (lookup k m)
  unfolding insert_tools
  lookup-insert_tools k [] m = refl
  lookup-insert_tools k (t ∷ ts) m = ground (
    arith,
    lookup-insert_tools k ts (insert (spec_of t).name t m),
    lookup-insert (spec_of t).name k t m,
  )

  abbrev pub unless_owned : ℕ → Option (Tool F) → Option (Tool F)
  unless_owned host none = none
  unless_owned host (some t) = if owned_by host t then none else some t

  lookup-replace_tools :
      (host : ℕ) (ts : List (Tool F)) (m : Manager F)
      → Distinct m.tools
      → (k : Text)
      → lookup k (replace_tools host ts m).tools
        ≡ over (last_tool k ts) (unless_owned host (lookup k m.tools))
  unfolding replace_tools
  lookup-replace_tools host ts m d k = ground (
    arith,
    lookup-insert_tools k ts (sweep (owned_by host) m.tools),
    lookup-sweep (owned_by host) k m.tools d,
  )

  -- The tool of a spec, whatever its dispatch block.
  abbrev pub tool_for : ℕ → ToolSpec (Value F) → Tool F
  tool_for host s = if is_some s.dispatch then dispatching s else external host s

  -- The tool of the last spec under a name.
  abbrev pub last_spec :
      (ToolSpec (Value F) → Tool F) → Text → List (ToolSpec (Value F)) → Option (Tool F)
  last_spec f k [] = none
  last_spec f k (s ∷ ss) = over (last_spec f k ss) (if text_eq s.name k then some (f s) else none)

  new_dispatch_tool-some : (s s' : ToolSpec (Value F)) → new_dispatch_tool s ≡ some s' → s ≡ s'
  unfolding new_dispatch_tool
  new_dispatch_tool-some s s' e = ground arith

  host_tool-some :
      (host : ℕ) (s : ToolSpec (Value F)) (t : Tool F)
      → host_tool host s ≡ some t
      → t ≡ tool_for host s
  unfolding host_tool
  host_tool-some host s t e = elim (Option-cases (new_dispatch_tool s)) [
    | inl n ↦ ground (arith, n)
    | inr (s', n) ↦ ground (arith, n, new_dispatch_tool-some s s' n)
  ]

  tool_for_name : (host : ℕ) (s : ToolSpec (Value F)) → (spec_of (tool_for host s)).name ≡ s.name
  unfolding spec_of
  tool_for_name host s = ground arith

  host_tools_cons :
      (host : ℕ) (s : ToolSpec (Value F)) (ss : List (ToolSpec (Value F))) (ts : List (Tool F))
      → host_tools host (s ∷ ss) ≡ some ts
      → (ts' : List (Tool F)) × (host_tools host ss ≡ some ts') × (ts ≡ tool_for host s ∷ ts')
  unfolding host_tools
  host_tools_cons host s ss ts e = elim (Option-cases (host_tool host s)) [
    | inl n ↦ absurd (ground (arith, n))
    | inr (t, n) ↦ elim (Option-cases (host_tools host ss)) [
      | inl q ↦ absurd (ground (arith, n, q))
      | inr (ts', q) ↦ (ts', q, ground (arith, n, q, host_tool-some host s t n))
    ]
  ]

  last_tool-host_tools :
      (host : ℕ) (specs : List (ToolSpec (Value F))) (ts : List (Tool F))
      → host_tools host specs ≡ some ts
      → (k : Text) → last_tool k ts ≡ last_spec (tool_for host) k specs
  unfolding host_tools
  last_tool-host_tools host [] ts e k = ground arith
  last_tool-host_tools host (s ∷ ss) ts e k =
      let (ts', q, c) = host_tools_cons host s ss ts e in
      rw (c, tool_for_name host s, last_tool-host_tools host ss ts' q k) refl

  -- When a host's list is registered, every name has the tool of the list's last entry under it, and where the
  -- list has no such entry it keeps what it had, unless that was a tool which the host's process runs: that is
  -- gone. The registry had no name twice.
  pub register_host_tools_lem :
      (host : ℕ) (specs : List (ToolSpec (Value F))) (m m' : Manager F)
      → Distinct m.tools
      → register_host_tools host specs m ≡ some m'
      → (k : Text)
      → lookup k m'.tools
        ≡ over (last_spec (tool_for host) k specs) (unless_owned host (lookup k m.tools))
  unfolding register_host_tools
  register_host_tools_lem host specs m m' d e k = elim (Option-cases (host_tools host specs)) [
    | inl n ↦ absurd (ground (arith, n))
    | inr (ts, n) ↦
        let q : m' ≡ replace_tools host ts m = ground (arith, n) in
        rw (q, lookup-replace_tools host ts m d k, last_tool-host_tools host specs ts n k) refl
  ]

  -- A packet tool that a host listed stays when the host lists its tools again without it.
  pub revised_dispatch_stays :
      (host : ℕ) (before after : List (ToolSpec (Value F))) (s : ToolSpec (Value F))
      (m m' m'' : Manager F)
      → Distinct m.tools
      → Distinct m'.tools
      → register_host_tools host before m ≡ some m'
      → last_spec (tool_for host) s.name before ≡ some (tool_for host s)
      → is_some s.dispatch ≡ true
      → register_host_tools host after m' ≡ some m''
      → last_spec (tool_for host) s.name after ≡ none
      → lookup s.name m''.tools ≡ some (dispatching s)
  unfolding owned_by
  revised_dispatch_stays host before after s m m' m'' d d' e l p e' l' =
      let a = register_host_tools_lem host before m m' d e s.name in
      let b = register_host_tools_lem host after m' m'' d' e' s.name in
      ground (arith, a, b, l, l', p)

  -- The tool that a manifest without a process has under a name.
  abbrev dispatched : Text → List (ToolSpec (Value F)) → Option (Tool F)
  dispatched = last_spec dispatching

  new_dispatch_tool_total :
      (s : ToolSpec (Value F))
      → is_some s.dispatch ≡ true
      → dispatches_blank s.dispatch ≡ false
      → new_dispatch_tool s ≡ some s
  unfolding new_dispatch_tool dispatches_blank
  new_dispatch_tool_total s e h = ground arith

  pub register_dispatch_lem :
      (seen : List Text) (ss : List (ToolSpec (Value F))) (m : Manager F)
      → ToolsFit seen ss
      → AllDispatch ss
      → ((register_dispatch ss m).1 ≡ true)
        × ((k : Text)
            → lookup k (register_dispatch ss m).0.tools
              ≡ over (last_spec dispatching k ss) (lookup k m.tools))
  unfolding register_dispatch register spec_of
  register_dispatch_lem seen [] m f a = (refl, λ k. refl)
  register_dispatch_lem seen (s ∷ ss) m (u, (n, topic, l), f) (p, a) =
      let q : new_dispatch_tool s ≡ some s =
        ground (arith, new_dispatch_tool_total s p, topic_iff s.dispatch) in
      let (t, r) = register_dispatch_lem (s.name ∷ seen) ss (register (dispatching s) m) f a in
      (
        rw (q, register_dispatch) t,
        λ k.
            rw (q, register_dispatch)
              (ground (arith, r k, lookup-insert s.name k (dispatching s) m.tools)),
      )
