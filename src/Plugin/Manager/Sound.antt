-- ===== src/Plugin/Manager/Sound.antt =====
-- internal/plugin/manager.go: tools that stand under their own names and have what they run on.
use streamcore_server.Base.{
  Bool, Bool-cases, Distinct, List, Map, Option-cases, [], arith, inl, inr, insert, insert-Distinct,
  is_some, not, refl, some, subst, sweep, text_eq, text_eq_self, true, ℕ, ◌&&◌, ◌++◌, ◌∷◌, ◌≡◌,
}
use streamcore_server.Plugin.Manifest.{ToolSpec, dispatches_blank}
use streamcore_server.Plugin.Dispatch.{Value, new_dispatch_tool}
use streamcore_server.Plugin.Manager.{
  Tool, Host, dispatching, external, in_process, spec_of, host_tool, host_tools, insert_tools,
}
use streamcore_server.Plugin.Manager.Hosts.{has_host, has_host-append}

module _ {F : Type 0} where
  -- A packet tool has a topic, and the process of a tool is one that the manager keeps.
  unfoldable pub sound : List Host → Tool F → Bool
  unfolding dispatches_blank
  sound hosts (dispatching s) = is_some s.dispatch && not (dispatches_blank s.dispatch)
  sound hosts (external h s) = has_host h hosts
  sound hosts (in_process s) = true

  -- Every tool stands under its own name and is sound.
  unfoldable pub all_fit : List Host → Map (Tool F) → Bool
  unfolding sound spec_of
  all_fit hosts [] = true
  all_fit hosts ((k, t) ∷ m) = text_eq (spec_of t).name k && sound hosts t && all_fit hosts m

  pub all_fit-insert :
      (hosts : List Host) (t : Tool F) (m : Map (Tool F))
      → sound hosts t ≡ true
      → all_fit hosts m ≡ true
      → all_fit hosts (insert (spec_of t).name t m) ≡ true
  unfolding all_fit insert
  all_fit-insert hosts t [] s a = ground (arith, text_eq_self (spec_of t).name)
  all_fit-insert hosts t ((k, v) ∷ m) s a =
      ground (arith, text_eq_self (spec_of t).name, all_fit-insert hosts t m s)

  pub all_fit-sweep :
      (hosts : List Host) (p : Tool F → Bool) (m : Map (Tool F))
      → all_fit hosts m ≡ true
      → all_fit hosts (sweep p m) ≡ true
  unfolding all_fit sweep
  all_fit-sweep hosts p [] a = refl
  all_fit-sweep hosts p ((k, v) ∷ m) a = ground (arith, all_fit-sweep hosts p m)

  sound-append :
      (x : Host) (hosts : List Host) (t : Tool F)
      → sound hosts t ≡ true
      → sound (hosts ++ (x ∷ [])) t ≡ true
  unfolding sound
  sound-append x hosts (dispatching s) a = a
  sound-append x hosts (external h s) a = ground (arith, has_host-append h x hosts)
  sound-append x hosts (in_process s) a = a

  pub all_fit-append :
      (x : Host) (hosts : List Host) (m : Map (Tool F))
      → all_fit hosts m ≡ true
      → all_fit (hosts ++ (x ∷ [])) m ≡ true
  unfolding all_fit
  all_fit-append x hosts [] a = refl
  all_fit-append x hosts ((k, t) ∷ m) a =
      ground (arith, all_fit-append x hosts m, sound-append x hosts t)

  -- Every tool of the list is sound.
  abbrev pub AllSound : List Host → List (Tool F) → Type 0
  AllSound hosts [] = Unit
  AllSound hosts (t ∷ ts) = (sound hosts t ≡ true) × AllSound hosts ts

  pub insert_tools-fit :
      (hosts : List Host) (ts : List (Tool F)) (m : Map (Tool F))
      → AllSound hosts ts
      → Distinct m
      → all_fit hosts m ≡ true
      → Distinct (insert_tools ts m) × (all_fit hosts (insert_tools ts m) ≡ true)
  unfolding insert_tools
  insert_tools-fit hosts [] m s d a = (d, a)
  insert_tools-fit hosts (t ∷ ts) m (s, ss) d a =
      insert_tools-fit hosts ts (insert (spec_of t).name t m) ss
        (insert-Distinct (spec_of t).name t m d) (all_fit-insert hosts t m s a)

  pub new_dispatch_tool-sound :
      (hosts : List Host) (s s' : ToolSpec (Value F))
      → new_dispatch_tool s ≡ some s'
      → sound hosts (dispatching s') ≡ true
  unfolding new_dispatch_tool sound dispatches_blank
  new_dispatch_tool-sound hosts s s' e = ground arith

  host_tool-sound :
      (hosts : List Host) (h : ℕ) (s : ToolSpec (Value F)) (t : Tool F)
      → has_host h hosts ≡ true
      → host_tool h s ≡ some t
      → sound hosts t ≡ true
  unfolding host_tool sound
  host_tool-sound hosts h s t i e = elim (Bool-cases (is_some s.dispatch)) [
    | inr b ↦ let q : external h s ≡ t = ground (arith, b) in subst (λ x. sound hosts x ≡ true) q i
    | inl b ↦ elim (Option-cases (new_dispatch_tool s)) [
      | inl n ↦ absurd (ground (arith, b, n))
      | inr (s', n) ↦
          let q : dispatching s' ≡ t = ground (arith, b, n) in
          subst (λ x. sound hosts x ≡ true) q (new_dispatch_tool-sound hosts s s' n)
    ]
  ]

  pub host_tools-AllSound :
      (hosts : List Host) (h : ℕ) (ss : List (ToolSpec (Value F))) (ts : List (Tool F))
      → has_host h hosts ≡ true
      → host_tools h ss ≡ some ts
      → AllSound hosts ts
  unfolding host_tools
  host_tools-AllSound hosts h [] ts i e =
      let q : [] ≡ ts = ground arith in subst (AllSound hosts) q tt
  host_tools-AllSound hosts h (s ∷ ss) ts i e = elim (Option-cases (host_tool h s)) [
    | inl n ↦ absurd (ground (arith, n))
    | inr (t, n) ↦ elim (Option-cases (host_tools h ss)) [
      | inl q ↦ absurd (ground (arith, n, q))
      | inr (ts', q) ↦
          let r : t ∷ ts' ≡ ts = ground (arith, n, q) in
          subst (AllSound hosts) r
            (host_tool-sound hosts h s t i n, host_tools-AllSound hosts h ss ts' i q)
    ]
  ]
