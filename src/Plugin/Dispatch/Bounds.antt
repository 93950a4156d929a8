-- ===== src/Plugin/Dispatch/Bounds.antt =====
-- internal/plugin/dispatch.go: the numbers that a packet carries, and the schema's bounds.
use streamcore_server.Base.{
  Bool-cases, Option, Text, ap, arith, codes, false, inl, inr, none, refl, some, subst, text_eq,
  true, ◌∙◌, ◌≡◌, ◌⊎◌,
}
use streamcore_server.Plugin.Dispatch.{
  Value, Floats, Property, clamp_value, put_clamped, clamp, raise_to, lower_to, bound, to_float,
}

module _ {F : Type 0} (f : Floats F) where
  -- Not below the lower bound and not above the upper one, where there is one.
  abbrev pub AtLeast : Option F → F → Type 0
  AtLeast none x = Unit
  AtLeast (some lo) x = f.lt x lo ≡ false

  abbrev pub AtMost : Option F → F → Type 0
  AtMost none x = Unit
  AtMost (some hi) x = f.lt hi x ≡ false

  -- The lower bound does not stand above the upper one.
  abbrev pub Ordered : Option F → Option F → Type 0
  Ordered none hi = Unit
  Ordered (some lo) none = Unit
  Ordered (some lo) (some hi) = f.lt hi lo ≡ false

  module _ (irreflexive : (x : F) → f.lt x x ≡ false)
      (antisymmetric : (x y : F) → f.lt x y ≡ true → f.lt y x ≡ false) where
    clamps :
        (lo hi : Option F) (x : F)
        → Ordered lo hi
        → AtLeast lo (lower_to f hi (raise_to f lo x)) × AtMost hi (lower_to f hi (raise_to f lo x))
    unfolding lower_to raise_to
    clamps none none x o = (tt, tt)
    clamps (some lo) none x o = (ground (arith, irreflexive lo), tt)
    clamps none (some hi) x o = (tt, ground (arith, irreflexive hi))
    clamps (some lo) (some hi) x o =
        (ground (arith, irreflexive lo, o), ground (arith, irreflexive hi, o))

    -- A bound is a whole number, if the property is one.
    abbrev pub WholeFor : Text → Option F → Type 0
    WholeFor kind none = Unit
    WholeFor kind (some b) =
        (text_eq kind (codes "integer") ≡ false) ⊎ (f.of_int (f.to_int b).0 (f.to_int b).1 ≡ b)

    data Clamped (lo hi : Option F) (x y : F) : Type 0 where
      same : y ≡ x → Clamped lo hi x y
      low : (b : F) → lo ≡ some b → y ≡ b → Clamped lo hi x y
      high : (b : F) → hi ≡ some b → y ≡ b → Clamped lo hi x y

    clamp_cases : (lo hi : Option F) (x : F) → Clamped lo hi x (lower_to f hi (raise_to f lo x))
    unfolding lower_to raise_to
    clamp_cases none none x = same refl
    clamp_cases (some lo) none x = elim (Bool-cases (f.lt x lo)) [
      | inl e ↦ rw e (low lo refl refl)
      | inr e ↦ rw e (same refl)
    ]
    clamp_cases none (some hi) x = elim (Bool-cases (f.lt hi x)) [
      | inl e ↦ rw e (high hi refl refl)
      | inr e ↦ rw e (same refl)
    ]
    clamp_cases (some lo) (some hi) x = elim (Bool-cases (f.lt x lo)) [
      | inl e ↦ rw e (elim (Bool-cases (f.lt hi lo)) [
        | inl g ↦ rw g (high hi refl refl)
        | inr g ↦ rw g (low lo refl refl)
      ])
      | inr e ↦ rw e (elim (Bool-cases (f.lt hi x)) [
        | inl g ↦ rw g (high hi refl refl)
        | inr g ↦ rw g (same refl)
      ])
    ]

    -- The number that is sent for a clamped one.
    put_number :
        (reflexive : (x : F) → f.eq x x ≡ true) (p : Property) (x y : F) (v : Value F)
        → f.eq y x ≡ false
        → WholeFor p.kind (bound f p.minimum)
        → WholeFor p.kind (bound f p.maximum)
        → Clamped (bound f p.minimum) (bound f p.maximum) x y
        → to_float f (put_clamped f p x y v) ≡ some y
    unfolding put_clamped to_float
    put_number reflexive p x y v h wl wh (same e) = absurd (ground (arith, e, reflexive x, h))
    put_number reflexive p x y v h wl wh (low b l e) =
        let w : WholeFor p.kind (some b) = subst (WholeFor p.kind) l wl in ground (arith, w, e, h)
    put_number reflexive p x y v h wl wh (high b l e) =
        let w : WholeFor p.kind (some b) = subst (WholeFor p.kind) l wh in ground (arith, w, e, h)

    keep_number :
        (p : Property) (x y : F) (v : Value F) → f.eq y x ≡ true → put_clamped f p x y v ≡ v
    unfolding put_clamped
    keep_number p x y v e = rw e refl

    clamp_value_number :
        (p : Property) (v : Value F) (x : F)
        → to_float f v ≡ some x
        → clamp_value f p v ≡ put_clamped f p x (clamp f p x) v
    unfolding clamp_value
    clamp_value_number p v x e = rw (e, clamp_value) refl

    within_of_equal :
        (congruent : (x y : F)
          → f.eq x y ≡ true
          → (z : F) → (f.lt x z ≡ f.lt y z) × (f.lt z x ≡ f.lt z y))
        (lo hi : Option F) (x y : F)
        → f.eq y x ≡ true
        → AtLeast lo y × AtMost hi y
        → AtLeast lo x × AtMost hi x
    within_of_equal congruent none none x y e (a, b) = (tt, tt)
    within_of_equal congruent (some lo) none x y e (a, b) = (ground (arith, congruent y x e lo), tt)
    within_of_equal congruent none (some hi) x y e (a, b) = (tt, ground (arith, congruent y x e hi))
    within_of_equal congruent (some lo) (some hi) x y e (a, b) =
        (ground (arith, congruent y x e lo), ground (arith, congruent y x e hi))

    -- Whatever number the model gives for an argument whose schema has a lower bound not above its upper bound,
    -- the value that is forwarded is a number within both bounds. An integer's bounds are whole numbers, and
    -- float64 compares as an order without NaN, its equality being reflexive and agreeing with the order.
    pub clamp_value_bounds :
        (reflexive : (x : F) → f.eq x x ≡ true)
        (congruent : (x y : F)
          → f.eq x y ≡ true
          → (z : F) → (f.lt x z ≡ f.lt y z) × (f.lt z x ≡ f.lt z y))
        (p : Property) (v : Value F) (x : F)
        → Ordered (bound f p.minimum) (bound f p.maximum)
        → WholeFor p.kind (bound f p.minimum)
        → WholeFor p.kind (bound f p.maximum)
        → to_float f v ≡ some x
        → (y : F) × (to_float f (clamp_value f p v) ≡ some y)
          × AtLeast (bound f p.minimum) y
          × AtMost (bound f p.maximum) y
    unfolding clamp
    clamp_value_bounds reflexive congruent p v x o wl wh e =
        let lo = bound f p.minimum in
        let hi = bound f p.maximum in
        let y = lower_to f hi (raise_to f lo x) in
        let c = clamps lo hi x o in
        elim (Bool-cases (f.eq y x)) [
          | inl q ↦
              let (a, b) = within_of_equal congruent lo hi x y q c in
              (x, ap (to_float f) (clamp_value_number p v x e ∙ keep_number p x y v q) ∙ e, a, b)
          | inr q ↦ (
            y,
            ap (to_float f) (clamp_value_number p v x e)
                ∙ put_number reflexive p x y v q wl wh (clamp_cases lo hi x),
            c.0,
            c.1,
          )
        ]
