-- ===== src/Plugin/Dispatch/Packet.antt =====
-- internal/plugin/dispatch.go: what each field of a packet is.
use streamcore_server.Base.{
  Bool, Distinct, Map, Option, Option-cases, Text, [], ap, arith, if-either, if◌then◌else◌, inl,
  inr, insert, insert-Distinct, is_some, lookup, lookup-insert, lookup-sweep, none, refl, some,
  text_eq, text_eq_iff, ◌&&◌, ◌||◌, ◌∙◌, ◌∷◌, ◌≡◌,
}
use streamcore_server.Plugin.Manifest.{ToolSpec, DispatchSpec}
use streamcore_server.Plugin.Dispatch.{
  Value, Floats, Json, Property, Schema, packet_fields, apply_schema, drop_undeclared, clamp_fields,
  clamp_field, keep_keys, put_constants, omit_zeros, clamp_value, is_zero, is_open, parameters,
}

module _ {F : Type 0} (f : Floats F) where
  -- What is left of an argument that the schema declares so.
  abbrev pub clamped : Option Property → Option (Value F) → Option (Value F)
  clamped none v = v
  clamped (some p) none = none
  clamped (some p) (some v) = some (clamp_value f p v)

  abbrev pub allowed : Schema → Option Property → Option (Value F) → Option (Value F)
  allowed s none v = if is_open s.additional_properties then v else none
  allowed s (some p) v = clamped (some p) v

  abbrev pub under_schema : Option Schema → Text → Option (Value F) → Option (Value F)
  under_schema none k v = v
  under_schema (some s) k v = allowed s (lookup k s.properties) v

  abbrev pub unless_zero : Bool → Option (Value F) → Option (Value F)
  unless_zero omit none = none
  unless_zero omit (some v) = if omit && is_zero f v then none else some v

abbrev pub over : {A : Type 0} → Option A → Option A → Option A
over none b = b
over (some a) b = some a

module _ {F : Type 0} (f : Floats F) where
  lookup-put_constants :
      (k : Text) (payload fields : Map (Value F))
      → Distinct payload
      → lookup k (put_constants f payload fields) ≡ over (lookup k payload) (lookup k fields)
  unfolding put_constants lookup
  lookup-put_constants k [] fields d = refl
  lookup-put_constants k ((i, v) ∷ payload) fields (a, d) = ground (
    arith,
    lookup-put_constants k payload (insert i v fields) d,
    lookup-insert i k v fields,
    text_eq_iff i k,
  )

  lookup-keep_keys :
      (k : Text) (d : Text → Bool) (m : Map (Value F))
      → lookup k (keep_keys f d m) ≡ (if d k then lookup k m else none)
  unfolding keep_keys lookup
  lookup-keep_keys k d [] = ground arith
  lookup-keep_keys k d ((i, v) ∷ m) = ground (arith, lookup-keep_keys k d m, text_eq_iff i k)

  keep_keys-Distinct :
      (d : Text → Bool) (m : Map (Value F)) → Distinct m → Distinct (keep_keys f d m)
  unfolding keep_keys
  keep_keys-Distinct d [] h = tt
  keep_keys-Distinct d ((i, v) ∷ m) (a, h) =
      ground (arith, keep_keys-Distinct d m h, lookup-keep_keys i d m)

  lookup-clamp_field :
      (k i : Text) (p : Property) (m : Map (Value F))
      → lookup k (clamp_field f i p m)
        ≡ (if text_eq i k then clamped f (some p) (lookup k m) else lookup k m)
  unfolding clamp_field
  lookup-clamp_field k i p m = elim (Option-cases (lookup i m)) [
    | inl e ↦ rw (e, clamp_field) (ground (arith, text_eq_iff i k))
    | inr (v, e) ↦
        rw (e, clamp_field)
          (ground (arith, text_eq_iff i k, lookup-insert i k (clamp_value f p v) m))
  ]

  clamp_field-Distinct :
      (i : Text) (p : Property) (m : Map (Value F)) → Distinct m → Distinct (clamp_field f i p m)
  unfolding clamp_field
  clamp_field-Distinct i p m d = elim (Option-cases (lookup i m)) [
    | inl e ↦ rw (e, clamp_field) d
    | inr (v, e) ↦ rw (e, clamp_field) (insert-Distinct i (clamp_value f p v) m d)
  ]

  lookup-clamp_fields :
      (k : Text) (ps : Map Property) (m : Map (Value F))
      → Distinct ps
      → lookup k (clamp_fields f ps m) ≡ clamped f (lookup k ps) (lookup k m)
  unfolding clamp_fields lookup
  lookup-clamp_fields k [] m d = refl
  lookup-clamp_fields k ((i, p) ∷ ps) m (a, d) = ground (
    arith,
    lookup-clamp_fields k ps (clamp_field f i p m) d,
    lookup-clamp_field k i p m,
    text_eq_iff i k,
  )

  clamp_fields-Distinct :
      (ps : Map Property) (m : Map (Value F)) → Distinct m → Distinct (clamp_fields f ps m)
  unfolding clamp_fields
  clamp_fields-Distinct [] m d = d
  clamp_fields-Distinct ((i, p) ∷ ps) m d =
      clamp_fields-Distinct ps (clamp_field f i p m) (clamp_field-Distinct i p m d)

  drop_undeclared-Distinct :
      (s : Schema) (m : Map (Value F)) → Distinct m → Distinct (drop_undeclared f s m)
  unfolding drop_undeclared
  drop_undeclared-Distinct s m d =
      if-either Distinct (is_open s.additional_properties) d
        (keep_keys-Distinct (λ k. is_some (lookup k s.properties)) m d)

  lookup-drop_undeclared :
      (k : Text) (s : Schema) (m : Map (Value F))
      → lookup k (drop_undeclared f s m) ≡ (
          if is_open s.additional_properties || is_some (lookup k s.properties)
          then lookup k m
          else none)
  unfolding drop_undeclared
  lookup-drop_undeclared k s m =
      ground (arith, lookup-keep_keys k (λ (i : Text). is_some (lookup i s.properties)) m)

  lookup-omit_zeros :
      (k : Text) (omit : Bool) (m : Map (Value F))
      → Distinct m
      → lookup k (omit_zeros f omit m) ≡ unless_zero f omit (lookup k m)
  unfolding omit_zeros
  lookup-omit_zeros k omit m d = ground (arith, lookup-sweep (is_zero f) k m d)

  module _ (j : Json F) (schema : Text)
      (declared_once : (s : Schema) → j.decode_schema schema ≡ some s → Distinct s.properties) where
    apply_schema-Distinct : (m : Map (Value F)) → Distinct m → Distinct (apply_schema f j schema m)
    unfolding apply_schema
    apply_schema-Distinct m d = elim (Option-cases (j.decode_schema schema)) [
      | inl e ↦ rw (e, apply_schema) d
      | inr (s, e) ↦
          rw (e, apply_schema)
            (clamp_fields-Distinct s.properties (drop_undeclared f s m)
              (drop_undeclared-Distinct s m d))
    ]

    lookup-apply_schema :
        (k : Text) (m : Map (Value F))
        → lookup k (apply_schema f j schema m)
          ≡ under_schema f (j.decode_schema schema) k (lookup k m)
    unfolding apply_schema
    lookup-apply_schema k m = elim (Option-cases (j.decode_schema schema)) [
      | inl e ↦ rw (e, apply_schema) refl
      | inr (s, e) ↦
          rw (e, apply_schema)
            (ground (
              arith,
              declared_once s e,
              lookup-clamp_fields k s.properties (drop_undeclared f s m) (declared_once s e),
              lookup-drop_undeclared k s m,
            ))
    ]

  -- Every field of the packet that a call sends is the manifest's constant of its name, if there is one,
  -- and else the argument of its name as the schema leaves it: gone if the schema does not declare it
  -- and is not open, clamped to its bounds if it is a number, and gone if it is zero and the tool omits zeros.
  -- The decoded arguments, the constants and the schema's properties name no key twice.
  pub lookup-packet_fields :
      (j : Json F) (spec : ToolSpec (Value F)) (d : DispatchSpec (Value F)) (fields : Map (Value F))
      → Distinct fields
      → Distinct d.payload
      → ((s : Schema) → j.decode_schema (parameters j spec) ≡ some s → Distinct s.properties)
      → (k : Text)
      → lookup k (packet_fields f j spec d fields)
        ≡ over (lookup k d.payload) (
            unless_zero f d.omit_zero
              (under_schema f (j.decode_schema (parameters j spec)) k (lookup k fields)))
  unfolding packet_fields
  lookup-packet_fields j spec d fields df dp once k =
      let m = apply_schema f j (parameters j spec) fields in
      let dm = apply_schema-Distinct j (parameters j spec) once fields df in
      lookup-put_constants k d.payload (omit_zeros f d.omit_zero m) dp
      ∙ ap (over (lookup k d.payload)) (
          lookup-omit_zeros k d.omit_zero m dm
          ∙ ap (unless_zero f d.omit_zero)
              (lookup-apply_schema j (parameters j spec) once k fields))
