-- ===== src/Plugin/Manager/Loading.antt =====
-- internal/plugin/manager.go: what loading one manifest does to the registry.
use streamcore_server.Base.{
  Bool-cases, List, Option, Option-cases, Text, [], ap, arith, inl, inr, is_empty, lookup, none,
  refl, some, subst, suc, sym, true, ◌∙◌, ◌≡◌,
}
use streamcore_server.Plugin.Manifest.{
  ToolSpec, Manifest, Overrides, validate, is_enabled, needs_a_process,
}
use streamcore_server.Plugin.Manifest.Accepts.{Acceptable, validate_accepts}
use streamcore_server.Plugin.Dispatch.{Value}
use streamcore_server.Plugin.Dispatch.Packet.{over}
use streamcore_server.Plugin.Manager.{
  Manager, LoadError, dispatching, register_host_tools, load, load_enabled, load_host, config_of,
}
use streamcore_server.Plugin.Manager.Replaced.{last_spec, register_dispatch_lem}

module _ {F : Type 0} where
  -- The manifest with its table of config.toml.
  abbrev pub configured : Manager F → Manifest (Value F) → Manifest (Value F)
  configured m mf = record mf { config = config_of (lookup mf.name m.settings) }

  -- A manifest without a process that is accepted and enabled loads without an error, and then the registry has
  -- under each name the packet tool of the manifest's list with that name, and where there is none what it had.
  pub load_dispatch :
      (read : Text → Overrides) (mf : Manifest (Value F))
      (started : Option (List (ToolSpec (Value F)))) (m : Manager F)
      → validate mf ≡ none
      → is_enabled read (configured m mf) ≡ true
      → mf.exec ≡ []
      → ((load read mf started m).1 ≡ none)
        × ((k : Text)
            → lookup k (load read mf started m).0.tools
              ≡ over (last_spec dispatching k mf.tools) (lookup k m.tools))
  unfolding load load_enabled needs_a_process
  load_dispatch read mf started m v e x =
      let a : Acceptable mf = (validate_accepts mf).0 v in
      elim a.2 [
        | inl n ↦ absurd (n x)
        | inr (_, r0) ↦
            let (t, r) = register_dispatch_lem [] mf.tools m a.1 r0.1 in
            (
              rw (v, e, x, load) (ground (arith, t)),
              λ k. rw (v, e, x, load) (ground (arith, t, r k)),
            )
      ]

  -- Nothing of the manager but the number of the next process differs.
  abbrev pub SameBut : Manager F → Manager F → Type 0
  SameBut m m' = (m'.tools ≡ m.tools) × (m'.handlers ≡ m.handlers) × (m'.hosts ≡ m.hosts)

  load_host-SameBut :
      (mf : Manifest (Value F)) (started : Option (List (ToolSpec (Value F)))) (m : Manager F)
      (err : LoadError)
      → (load_host mf started m).1 ≡ some err
      → SameBut m (load_host mf started m).0
  unfolding load_host
  load_host-SameBut mf none m err h = (refl, refl, refl)
  load_host-SameBut mf (some specs) m err h =
      let m' = record m { next_host = suc m.next_host } in
      elim (Option-cases (register_host_tools m.next_host specs m')) [
        | inl n ↦ (ground (arith, n), ground (arith, n), ground (arith, n))
        | inr (m'', n) ↦ absurd (ground (arith, n))
      ]

  -- Whatever a manifest says and its process answers, a manifest that fails to load leaves the tools, the
  -- handlers and the processes as they were.
  pub load-SameBut :
      (read : Text → Overrides) (mf : Manifest (Value F))
      (started : Option (List (ToolSpec (Value F)))) (m : Manager F) (err : LoadError)
      → (load read mf started m).1 ≡ some err
      → SameBut m (load read mf started m).0
  unfolding load load_enabled needs_a_process
  load-SameBut read mf started m err h = elim (Option-cases (validate mf)) [
    | inr (i, v) ↦ rw (v, load) (refl, refl, refl)
    | inl v ↦ elim (Bool-cases (is_enabled read (configured m mf))) [
      | inr e ↦ rw (v, e, load) (refl, refl, refl)
      | inl e ↦ elim (Bool-cases (is_empty mf.exec)) [
        | inr x ↦
            let g : load read mf started m ≡ load_host (configured m mf) started m =
              rw (v, e, x, load) refl in
            subst (λ r. SameBut m r.0) (sym g)
              (load_host-SameBut (configured m mf) started m err (ap (λ r. r.1) (sym g) ∙ h))
        | inl x ↦
            let d = load_dispatch read mf started m v e (ground arith) in
            absurd (ground (arith, d.0, h))
      ]
    ]
  ]
