-- ===== src/Plugin/Confirm/Split.antt =====
-- The part of the gate that reads and writes JSON. What encoding/json, crypto/sha256 and
-- encoding/hex compute is a parameter, with the documented behaviour that the gate relies on.
use streamcore_server.Base.{
  Bool, Map, Option, Option-cases, Text, [], arith, codes, delete, inl, inr, lookup,
  lookup-delete_self, none, refl, some, ℕ, ◌∷◌, ◌≡◌, ◌≢◌, ◌⊎◌,
}
use streamcore_server.Plugin.Confirm.{
  ConfirmationStore, gate, Refusal, token_not_text, encode_failed, Verdict, refuse,
}

pub record Json : Type 0 where
  -- Unmarshal into map[string]json.RawMessage, and Marshal of such a map.
  pub object : Text → Option (Map Text)
  pub print : Map Text → Option Text
  -- Unmarshal into a string.
  pub text : Text → Option Text
  -- Unmarshal into any value, and Marshal of that value, which sorts the keys.
  pub canonical : Text → Option Text
  -- The digest in hexadecimal.
  pub digest : Text → Text
  -- A map that was printed reads back as itself.
  pub object-print : (m : Map Text) (b : Text) → print m ≡ some b → object b ≡ some m

abbrev pub confirm_token_field : Text
confirm_token_field = codes "confirm_token"

module _ (j : Json) where
  lift_token : Map Text → Text → (Text × Text) ⊎ Refusal
  lift_token fields raw = elim (j.text raw) [
    | none ↦ inr token_not_text
    | some token ↦ elim (j.print (delete confirm_token_field fields)) [
      | none ↦ inr encode_failed
      | some clean ↦ inl (token, clean)
    ]
  ]

  -- The token and the arguments without it. What is no object has no token in it.
  unfoldable pub split_confirm_token : Text → (Text × Text) ⊎ Refusal
  unfolding lift_token
  split_confirm_token [] = inl ([], codes "{}")
  split_confirm_token (a ∷ as') = elim (j.object (a ∷ as')) [
    | none ↦ inl ([], a ∷ as')
    | some fields ↦ elim (lookup confirm_token_field fields) [
      | none ↦ inl ([], a ∷ as')
      | some raw ↦ lift_token fields raw
    ]
  ]

  unfoldable pub hash_args : Text → Text
  hash_args args = elim (j.canonical args) [ none ↦ j.digest args | some c ↦ j.digest c ]

  -- `Gate` on the arguments as they come: the store, the arguments that the tool would see, and the
  -- verdict.
  unfoldable pub gate_args :
      ConfirmationStore
      → Text
      → Text
      → Bool
      → Text
      → ℕ
      → Text
      → ConfirmationStore × Option Text × Verdict
  gate_args s session_id tool required args now new = elim (split_confirm_token args) [
    | inr r ↦ (s, none, refuse r)
    | inl (token, clean) ↦
        (let (s', v) =
            gate s
              (record {
                session_id = session_id;
                tool = tool;
                token = token;
                hash = hash_args clean;
                confirmation_required = required;
              })
              now new in
          (s', some clean, v))
  ]

  -- If the arguments that are passed on read as an object, it has no token field: neither when the
  -- field was cut off arguments that are not empty, nor when they are passed on as they came.
  pub split_confirm_token_strips :
      (args token clean : Text) (fields : Map Text)
      → split_confirm_token args ≡ inl (token, clean)
      → args ≢ []
      → j.object clean ≡ some fields
      → lookup confirm_token_field fields ≡ none
  unfolding split_confirm_token
  split_confirm_token_strips [] token clean fields e given o = absurd (given refl)
  split_confirm_token_strips (a ∷ as') token clean fields e given o =
      elim (Option-cases (j.object (a ∷ as'))) [
        | inl f ↦ ground arith
        | inr (m, f) ↦ elim (Option-cases (lookup confirm_token_field m)) [
          | inl g ↦ ground arith
          | inr (raw, g) ↦ elim (Option-cases (j.text raw)) [
            | inl h ↦ ground arith
            | inr (t, h) ↦ elim (Option-cases (j.print (delete confirm_token_field m))) [
              | inl k ↦ ground arith
              | inr (b, k) ↦ ground (
                arith,
                j.object-print (delete confirm_token_field m) b k,
                lookup-delete_self confirm_token_field m,
              )
            ]
          ]
        ]
      ]
