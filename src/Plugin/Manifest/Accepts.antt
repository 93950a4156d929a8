-- ===== src/Plugin/Manifest/Accepts.antt =====
-- What Validate accepts, said without its order of checks.
use streamcore_server.Base.{
  List, Option, Text, [], arith, false, is_empty, is_some, none, not, refl, some, suc, true, ℕ,
  ◌&&◌, ◌++◌, ◌↔◌, ◌∷◌, ◌≡◌, ◌≢◌, ◌⊎◌,
}
use streamcore_server.Plugin.Manifest.{
  PartialSpec, DispatchSpec, ToolSpec, Manifest, CaptureSpec, validate, validate_tools,
  validate_processless, validate_partial, validate_capture, blank, any_blank, dispatches_blank,
  needs_a_process,
}
use streamcore_server.Strings.{member}

-- No text of the list is blank.
abbrev pub Said : List Text → Type 0
Said [] = Unit
Said (s ∷ l) = (blank s ≡ false) × Said l

-- A capture names its argument and what it follows; without one there is nothing to settle.
abbrev pub CapturesWell : Option CaptureSpec → ℕ → Type 0
CapturesWell none settle_ms = settle_ms ≡ 0
CapturesWell (some c) settle_ms = (blank c.arg ≡ false) × (c.after ≢ []) × Said c.after

module _ {V : Type 0} where
  -- Only a packet may be sent from an unfinished sentence, and something must set it off.
  abbrev pub ListensWell : Option (DispatchSpec V) → Option PartialSpec → Type 0
  ListensWell d none = Unit
  ListensWell none (some p) = ⊥
  ListensWell (some d) (some p) =
      ((is_empty p.matches && is_empty p.starts_with && not (is_some p.capture)) ≡ false)
      × CapturesWell p.capture p.settle_ms
      × Said (p.matches ++ p.starts_with)

  abbrev pub HasTopic : Option (DispatchSpec V) → Type 0
  HasTopic none = Unit
  HasTopic (some d) = blank d.topic ≡ false

  abbrev pub WellFormed : ToolSpec V → Type 0
  WellFormed t = (t.name ≢ []) × HasTopic t.dispatch × ListensWell t.dispatch t.on_partial

  -- Every tool is well formed, and no two have one name or one of those seen.
  abbrev pub ToolsFit : List Text → List (ToolSpec V) → Type 0
  ToolsFit seen [] = Unit
  ToolsFit seen (t ∷ ts) = (member t.name seen ≡ false) × WellFormed t × ToolsFit (t.name ∷ seen) ts

  abbrev pub AllDispatch : List (ToolSpec V) → Type 0
  AllDispatch [] = Unit
  AllDispatch (t ∷ ts) = (is_some t.dispatch ≡ true) × AllDispatch ts

  -- Without a process every tool is a packet, nothing is subscribed, and no language was left unread.
  abbrev pub RunsAlone : Manifest V → Type 0
  RunsAlone m =
      (m.tools ≢ [])
      × AllDispatch m.tools
      × (m.events ≡ [])
      × ((m.language ≡ []) ⊎ (m.entrypoint ≡ []))

  abbrev pub Acceptable : Manifest V → Type 0
  Acceptable m =
      (blank m.name ≡ false) × ToolsFit [] m.tools × ((m.exec ≢ []) ⊎ ((m.exec ≡ []) × RunsAlone m))

Said-iff : (l : List Text) → (any_blank l ≡ false) ↔ Said l
Said-iff [] = (λ h. tt, λ h. refl)
Said-iff (s ∷ l) = (λ h. ground (arith, Said-iff l), λ h. ground (arith, Said-iff l))

capture_iff :
    (tool : Text) (c : Option CaptureSpec) (n : ℕ)
    → (validate_capture tool c n ≡ none) ↔ CapturesWell c n
unfolding validate_capture
capture_iff tool none n = (λ h. ground arith, λ h. ground arith)
capture_iff tool (some c) n =
    (λ h. ground (arith, Said-iff c.after), λ h. ground (arith, Said-iff c.after))

module _ {V : Type 0} where
  partial_iff :
      (tool : Text) (d : Option (DispatchSpec V)) (p : Option PartialSpec)
      → (validate_partial tool d p ≡ none) ↔ ListensWell d p
  unfolding validate_partial
  partial_iff tool none none = (λ h. tt, λ h. refl)
  partial_iff tool (some d) none = (λ h. tt, λ h. refl)
  partial_iff tool none (some p) = (λ h. cc, λ h. absurd h)
  partial_iff tool (some d) (some p) = (
    λ h.
        ground
          (arith, Said-iff (p.matches ++ p.starts_with), capture_iff tool p.capture p.settle_ms),
    λ h.
        ground
          (arith, Said-iff (p.matches ++ p.starts_with), capture_iff tool p.capture p.settle_ms),
  )

  pub topic_iff : (d : Option (DispatchSpec V)) → (dispatches_blank d ≡ false) ↔ HasTopic d
  unfolding dispatches_blank
  topic_iff none = (λ h. tt, λ h. refl)
  topic_iff (some d) = (λ h. h, λ h. h)

  tools_iff :
      (i : ℕ) (seen : List Text) (ts : List (ToolSpec V))
      → (validate_tools i seen ts ≡ none) ↔ ToolsFit seen ts
  unfolding validate_tools
  tools_iff i seen [] = (λ h. tt, λ h. refl)
  tools_iff i seen (t ∷ ts) = (
    λ h. ground (
      arith,
      tools_iff (suc i) (t.name ∷ seen) ts,
      topic_iff t.dispatch,
      partial_iff t.name t.dispatch t.on_partial,
    ),
    λ h. ground (
      arith,
      tools_iff (suc i) (t.name ∷ seen) ts,
      topic_iff t.dispatch,
      partial_iff t.name t.dispatch t.on_partial,
    ),
  )

  dispatch_iff : (ts : List (ToolSpec V)) → (validate_processless ts ≡ none) ↔ AllDispatch ts
  unfolding validate_processless
  dispatch_iff [] = (λ h. tt, λ h. refl)
  dispatch_iff (t ∷ ts) =
      (λ h. ground (arith, dispatch_iff ts), λ h. ground (arith, dispatch_iff ts))

  -- A manifest passes Validate exactly if its name is not blank, its tools are well formed and have different names, and either it starts a
  -- process or it has tools that are all packets, subscribes to nothing, and leaves no language and entry point unread.
  pub validate_accepts : (m : Manifest V) → (validate m ≡ none) ↔ Acceptable m
  unfolding validate needs_a_process
  validate_accepts m = (
    λ h. ground (arith, tools_iff 0 [] m.tools, dispatch_iff m.tools),
    λ h. ground (arith, tools_iff 0 [] m.tools, dispatch_iff m.tools),
  )
