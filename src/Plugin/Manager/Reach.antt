-- ===== src/Plugin/Manager/Reach.antt =====
-- internal/plugin/manager.go: which tools the model sees, and which it reaches.
use streamcore_server.Base.{
  Bool-cases, Distinct, List, Map, Option-cases, Text, [], ap, arith, false, if-either, inl, inr,
  lookup, none, refl, some, subst, sym, text_eq, text_eq_iff, text_eq_self, true, ◌↔◌, ◌∙◌, ◌∷◌,
  ◌≡◌, ◌⊎◌,
}
use streamcore_server.Plugin.Manager.{
  Tool, Manager, spec_of, is_internal, tools_of, visible, get_tool, unless_internal, lookup_tool,
  Host,
}
use streamcore_server.Plugin.Manager.Sound.{all_fit}
use streamcore_server.Plugin.Manager.Registry.{Reach, Reach-IsOrderly}

module _ {F : Type 0} where
  -- The tool is in the list.
  abbrev pub Holds : Tool F → List (Tool F) → Type 0
  Holds t [] = ⊥
  Holds t (x ∷ xs) = (x ≡ t) ⊎ Holds t xs

  Holds-visible :
      (name : Text) (m : Map (Tool F)) (t : Tool F)
      → lookup name m ≡ some t
      → is_internal t ≡ false
      → Holds t (visible m)
  unfolding visible lookup
  Holds-visible name [] t e n = cc
  Holds-visible name ((k, x) ∷ m) t e n = elim (Bool-cases (text_eq k name)) [
    | inl q ↦
        let p : x ≡ t = ground (arith, q) in
        let b : is_internal x ≡ false = ap is_internal p ∙ n in rw (b, visible) (inl p)
    | inr q ↦
        let h = Holds-visible name m t (ground (arith, q)) n in
        if-either (Holds t) (is_internal x) h (inr h)
  ]

  lookup_name :
      (hosts : List Host) (name : Text) (m : Map (Tool F)) (t : Tool F)
      → all_fit hosts m ≡ true
      → lookup name m ≡ some t
      → (spec_of t).name ≡ name
  unfolding all_fit lookup
  lookup_name hosts name [] t a e = cc
  lookup_name hosts name ((k, x) ∷ m) t a e = elim (Bool-cases (text_eq k name)) [
    | inl q ↦
        let p : x ≡ t = ground (arith, q) in
        ap (λ (y : Tool F). (spec_of y).name) (sym p)
        ∙ ground (arith, text_eq_iff (spec_of x).name k, text_eq_iff k name, q)
    | inr q ↦ lookup_name hosts name m t (ground arith) (ground (arith, q))
  ]

  later :
      (hosts : List Host) (k : Text) (x : Tool F) (m : Map (Tool F)) (t : Tool F)
      → lookup k m ≡ none
      → all_fit hosts ((k, x) ∷ m) ≡ true
      → (lookup (spec_of t).name m ≡ some t) × (is_internal t ≡ false)
      → (lookup (spec_of t).name ((k, x) ∷ m) ≡ some t) × (is_internal t ≡ false)
  unfolding lookup
  later hosts k x m t d a (e, b) = (ground (arith, e, d, text_eq_iff k (spec_of t).name), b)

  visible-lookup :
      (hosts : List Host) (m : Map (Tool F)) (t : Tool F)
      → Distinct m
      → all_fit hosts m ≡ true
      → Holds t (visible m)
      → (lookup (spec_of t).name m ≡ some t) × (is_internal t ≡ false)
  unfolding all_fit lookup visible
  visible-lookup hosts [] t d a h = absurd h
  visible-lookup hosts ((k, x) ∷ m) t (d, ds) a h = elim (Bool-cases (is_internal x)) [
    | inl b ↦
        let e : visible ((k, x) ∷ m) ≡ visible m = rw (b, visible) refl in
        later hosts k x m t d a (visible-lookup hosts m t ds (ground arith) (subst (Holds t) e h))
    | inr b ↦
        let e : visible ((k, x) ∷ m) ≡ x ∷ visible m = rw (b, visible) refl in
        let h' : Holds t (x ∷ visible m) = subst (Holds t) e h in
        elim h' [
          | inl p ↦
              let q : (spec_of t).name ≡ k =
                ap (λ (y : Tool F). (spec_of y).name) (sym p)
                ∙ ground (arith, text_eq_iff (spec_of x).name k) in
              (rw (q, text_eq_self k) (ap some p), ap is_internal (sym p) ∙ b)
          | inr g ↦ later hosts k x m t d a (visible-lookup hosts m t ds (ground arith) g)
        ]
  ]

  Holds-tools_of :
      (m : Manager F) (t : Tool F)
      → Reach m
      → Holds t (tools_of m)
        ↔ ((lookup_tool (spec_of t).name m ≡ some t) × ((spec_of t).internal ≡ false))
  unfolding tools_of lookup_tool is_internal
  Holds-tools_of m t r =
      let i = Reach-IsOrderly r in
      (
        λ h. visible-lookup m.hosts m.tools t i.distinct i.fit h,
        λ h. Holds-visible (spec_of t).name m.tools t h.0 h.1,
      )

  -- In every state that a manager reaches, a name reaches a tool exactly if the model is offered that tool and it has that
  -- name; and the model is offered exactly the tools that the registry has under their names and that are not marked internal.
  pub get_tool-tools_of :
      (m : Manager F) (name : Text) (t : Tool F)
      → Reach m
      → ((get_tool name m ≡ some t) ↔ (Holds t (tools_of m) × ((spec_of t).name ≡ name)))
        × (Holds t (tools_of m)
            ↔ ((lookup_tool (spec_of t).name m ≡ some t) × ((spec_of t).internal ≡ false)))
  unfolding get_tool tools_of lookup_tool unless_internal
  get_tool-tools_of m name t r =
      let i = Reach-IsOrderly r in
      (
        (
          λ g. elim (Option-cases (lookup name m.tools)) [
            | inl e ↦ absurd (ground (arith, e))
            | inr (x, e) ↦
                let p : x ≡ t = ground (arith, e) in
                let b : is_internal x ≡ false = ground (arith, e) in
                (
                  Holds-visible name m.tools t (e ∙ ap some p) (ap is_internal (sym p) ∙ b),
                  lookup_name m.hosts name m.tools t i.fit (e ∙ ap some p),
                )
          ],
          λ h.
              let (e, b) = visible-lookup m.hosts m.tools t i.distinct i.fit h.0 in
              let e' : lookup name m.tools ≡ some t =
                subst (λ (k : Text). lookup k m.tools ≡ some t) h.1 e in
              rw (e', b) refl,
        ),
        Holds-tools_of m t r,
      )
