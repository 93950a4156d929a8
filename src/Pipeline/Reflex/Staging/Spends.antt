-- ===== src/Pipeline/Reflex/Staging/Spends.antt =====
-- internal/pipeline/partial.go: what one partial fires, and what it leaves to be fired.
use streamcore_server.Base.{
  Bool, Bool-cases, List, Option, Option-cases, Text, [], arith, false, if-either, if◌then◌else◌,
  inl, inr, insert, is_empty, lookup, lookup-insert, none, not, refl, some, subst, suc, text_eq,
  text_eq_iff, true, ℕ, ◌&&◌, ◌++◌, ◌+◌, ◌||◌, ◌∙◌, ◌∷◌, ◌≡◌, ◌≤◌,
}
use streamcore_server.Strings.{Unicode, member}
use streamcore_server.Pipeline.Reflex.Matching.{normalize_partial, capture_after_anchor}
use streamcore_server.Pipeline.Reflex.Staging.{
  Entry, Capture, Hit, Reflex, stage, stage_locked, fire, observe_entry, observe_entries, observe,
  same_capture, matches,
}

abbrev pub count_of : Text → List Hit → ℕ
count_of n [] = 0
count_of n (h ∷ hits) = if text_eq h.tool n then suc (count_of n hits) else count_of n hits

-- An entry that captures has an argument, and one that matches has none.
abbrev pub of_kind : Bool → Entry → Bool
of_kind true e = is_empty e.arg
of_kind false e = not (is_empty e.arg)

abbrev pub fits : Text → Bool → Entry → Bool
fits n kind e = not (text_eq e.name n) || (e.once && of_kind kind e)

-- Every entry of the name fires once per utterance, and they all match, or all capture.
abbrev pub once_only : Text → Bool → List Entry → Bool
once_only n kind [] = true
once_only n kind (e ∷ es) = fits n kind e && once_only n kind es

-- How often the name may still fire.
unfoldable pub slack : Text → Reflex → ℕ
slack n r = if member n r.fired then 0 else 1

abbrev is_waiting : Option Capture → Bool
is_waiting none = false
is_waiting (some p) = true

-- What waits has not fired, and a tool that matches has nothing that waits.
unfoldable pub may_wait : Text → Bool → Reflex → Bool
may_wait n kind r = not (is_waiting (lookup n r.pending)) || (not kind && not (member n r.fired))

-- A step leaves the entries and the anchors, and what it fires it may not fire again.
abbrev pub Spends : Text → Bool → Reflex → Option (Reflex × List Hit) → Type 0
Spends n kind r none = Unit {0}
Spends n kind r (some (q, hits)) =
    (count_of n hits + slack n q ≤ slack n r)
    × (q.fired_anchors ≡ r.fired_anchors)
    × (q.entries ≡ r.entries)
    × (may_wait n kind r ≡ true → may_wait n kind q ≡ true)

same_Spends : (n : Text) (kind : Bool) (r : Reflex) → Spends n kind r (some (r, []))
same_Spends n kind r = (omega arith, refl, refl, λ w. w)

stage_waits :
    (n : Text) (kind : Bool) (e : Entry) (c : Capture) (r : Reflex)
    → fits n kind e ≡ true
    → is_empty e.arg ≡ false
    → (e.once && member e.name r.fired) ≡ false
    → may_wait n kind r ≡ true
    → may_wait n kind
        (record r { pending = insert e.name c r.pending; allocated = suc r.allocated })
      ≡ true
unfolding may_wait
stage_waits n true e c r f a k w =
    ground (arith, f, a, k, w, lookup-insert e.name n c r.pending, text_eq_iff e.name n)
stage_waits n false e c r f a k w =
    ground (arith, f, a, k, w, lookup-insert e.name n c r.pending, text_eq_iff e.name n)

stage-Spends :
    (n : Text) (kind : Bool) (e : Entry) (rest : Text) (anchors : ℕ) (r : Reflex)
    → fits n kind e ≡ true
    → is_empty e.arg ≡ false
    → (e.once && member e.name r.fired) ≡ false
    → Spends n kind r (some (stage e rest anchors r, []))
unfolding stage slack
stage-Spends n kind e rest anchors r f a k =
    if-either (λ (q : Reflex). Spends n kind r (some (q, [])))
      (same_capture (lookup e.name r.pending) rest anchors) (same_Spends n kind r)
      (
        omega arith,
        refl,
        refl,
        stage_waits n kind e (record { id = r.allocated; text = rest; anchors = anchors }) r f a k,
      )

stage_locked-Spends :
    (n : Text) (kind : Bool) (e : Entry) (text : Text) (r : Reflex)
    → fits n kind e ≡ true
    → is_empty e.arg ≡ false
    → (e.once && member e.name r.fired) ≡ false
    → Spends n kind r (elim (stage_locked e text r) [ none ↦ none | some q ↦ some (q, []) ])
unfolding stage_locked
stage_locked-Spends n kind e text r h a k =
    elim (Option-cases (capture_after_anchor text e.after)) [
      | inl f ↦ rw f tt
      | inr (none, f) ↦ rw f (same_Spends n kind r)
      | inr (some (rest, anchors), f) ↦ rw f (
          if-either (λ (q : Reflex). Spends n kind r (some (q, []))) (is_empty rest)
            (same_Spends n kind r) (stage-Spends n kind e rest anchors r h a k))
    ]

fire_waits :
    (n : Text) (kind : Bool) (e : Entry) (r : Reflex)
    → fits n kind e ≡ true
    → is_empty e.arg ≡ true
    → may_wait n kind r ≡ true
    → may_wait n kind (if e.once then record r { fired = e.name ∷ r.fired } else r) ≡ true
unfolding may_wait member
fire_waits n true e r f a w = ground (arith, f, a, w)
fire_waits n false e r f a w = ground (arith, f, a, w, text_eq_iff e.name n)

fire-Spends :
    (n : Text) (kind : Bool) (e : Entry) (r : Reflex)
    → fits n kind e ≡ true
    → is_empty e.arg ≡ true
    → (e.once && member e.name r.fired) ≡ false
    → Spends n kind r (some (fire e r))
unfolding fire slack member
fire-Spends n kind e r h a f = (
  ground (arith, text_eq_iff e.name n, h, f),
  ground arith,
  ground arith,
  fire_waits n kind e r h a,
)

observe_entry-Spends :
    (n : Text) (kind : Bool) (e : Entry) (text : Text) (r : Reflex)
    → fits n kind e ≡ true
    → Spends n kind r (observe_entry e text r)
unfolding observe_entry
observe_entry-Spends n kind e text r h = elim (Bool-cases (e.once && member e.name r.fired)) [
  | inl f ↦ rw f (same_Spends n kind r)
  | inr f ↦ elim (Bool-cases (is_empty e.arg)) [
    | inr a ↦ rw (f, a) (stage_locked-Spends n kind e text r h a f)
    | inl a ↦
        rw (f, a)
          (elim (Option-cases (matches e text)) [
            | inl g ↦ rw g tt
            | inr (false, g) ↦ rw g (same_Spends n kind r)
            | inr (true, g) ↦ rw g (fire-Spends n kind e r h a f)
          ])
  ]
]

pub count_of-append :
    (n : Text) (xs ys : List Hit) → count_of n (xs ++ ys) ≡ count_of n xs + count_of n ys
count_of-append n [] ys = omega arith
count_of-append n (x ∷ xs) ys = ground (arith, count_of-append n xs ys)

then_Spends :
    (n : Text) (kind : Bool) (r q : Reflex) (hits : List Hit) (o : Option (Reflex × List Hit))
    → Spends n kind r (some (q, hits))
    → Spends n kind q o
    → Spends n kind r (elim o [ none ↦ none | some (q', more) ↦ some (q', hits ++ more) ])
then_Spends n kind r q hits none s t = tt
then_Spends n kind r q hits (some (q', more)) (le, f, g, w) (le', f', g', w') =
    (omega (arith, le, le', count_of-append n hits more), f' ∙ f, g' ∙ g, λ x. w' (w x))

observe_entries-Spends :
    (n : Text) (kind : Bool) (es : List Entry) (text : Text) (r : Reflex)
    → once_only n kind es ≡ true
    → Spends n kind r (observe_entries es text r)
unfolding observe_entries
observe_entries-Spends n kind [] text r h = same_Spends n kind r
observe_entries-Spends n kind (e ∷ es) text r h =
    let s = observe_entry-Spends n kind e text r (ground (arith, h)) in
    elim (Option-cases (observe_entry e text r)) [
      | inl f ↦ rw (observe_entries, f) tt
      | inr ((q, hits), f) ↦
          rw (observe_entries, f)
            (then_Spends n kind r q hits _ (subst (Spends n kind r) f s)
              (observe_entries-Spends n kind es text q (ground (arith, h))))
    ]

pub observe-Spends :
    (u : Unicode) (n : Text) (kind : Bool) (partial : Text) (r : Reflex)
    → once_only n kind r.entries ≡ true
    → Spends n kind r (observe u partial r)
unfolding observe
observe-Spends u n kind partial r h =
    if-either (Spends n kind r) (is_empty (normalize_partial u partial)) (same_Spends n kind r)
      (observe_entries-Spends n kind r.entries (normalize_partial u partial) r h)
