-- ===== src/Examples/Confirmations.antt =====
-- A tool that asks for a confirmation, called twice.
use mathlib.Core.Option.{some-injective}
use streamcore_server.Base.{
  Distinct, Map, Option, Text, [], arith, codes, delete, if◌then◌else◌, inl, lookup, none, refl,
  size, some, text_eq, true, ◌+◌, ◌↔◌, ◌∷◌, ◌≡◌, ◌≢◌, ◌≤◌,
}
use streamcore_server.Plugin.Confirm.{
  ConfirmationStore, PendingConfirmation, Call, new_confirmation_store, gate, run,
}
use streamcore_server.Plugin.Confirm.Binding.{gate_runs, Covers}
use streamcore_server.Plugin.Confirm.Accounting.{
  runs-le-challenges, runs, challenges, verdicts, Calls,
}
use streamcore_server.Plugin.Confirm.Split.{Json, split_confirm_token, confirm_token_field}

abbrev store : ConfirmationStore
store = new_confirmation_store 0

abbrev call : Call
call = record {
  session_id = codes "s1";
  tool = codes "transfer";
  token = [];
  hash = codes "h";
  confirmation_required = true;
}

abbrev token : Text
token = codes "confirm-1"

abbrev again : Call
again = record call { token = token }

abbrev entry : PendingConfirmation
entry = record {
  session_id = codes "s1";
  tool = codes "transfer";
  args_hash = codes "h";
  expires = 50;
}

abbrev pending : ConfirmationStore
pending = record { pending = (token, entry) ∷ []; ttl = 40 }

pending-Distinct : Distinct pending.pending
unfolding lookup
pending-Distinct = (refl, tt)

gate_runs_example :
    ((gate pending again 20 token).1 ≡ run) ↔ ((again.token ≢ []) × Covers pending again 20)
gate_runs_example = gate_runs pending again 20 token pending-Distinct refl

store-Distinct : Distinct store.pending
unfolding new_confirmation_store
store-Distinct = tt

in_time : 20 ≤ 10 + store.ttl
unfolding new_confirmation_store
in_time = omega arith

abbrev calls : Calls
calls = (call, 10, token) ∷ (again, 20, []) ∷ (again, 30, []) ∷ []

runs-le-challenges_example :
    runs (verdicts store calls) ≤ size store.pending + challenges (verdicts store calls)
runs-le-challenges_example = runs-le-challenges store calls (refl, (refl, (refl, tt)))

-- A JSON library that knows two objects: one with nothing but the token in it, and the empty one.
abbrev printed : Text
printed = codes "{confirm_token:x}"

abbrev with_token : Map Text
with_token = (confirm_token_field, codes "x") ∷ []

abbrev toy_object : Text → Option (Map Text)
toy_object t =
    if text_eq t printed then some with_token else if text_eq t (codes "{}") then some [] else none

abbrev toy_print : Map Text → Option Text
toy_print [] = some (codes "{}")
toy_print (_ ∷ _) = none

toy_object-print : (m : Map Text) (b : Text) → toy_print m ≡ some b → toy_object b ≡ some m
unfolding text_eq
toy_object-print [] b e = rw⁻¹ (some-injective (codes "{}") b e) refl
toy_object-print (_ ∷ _) b e = cc

abbrev toy : Json
toy = record {
  object = toy_object;
  print = toy_print;
  text = λ t. some t;
  canonical = λ t. some t;
  digest = λ t. t;
  object-print = toy_object-print;
}

toy-splits : split_confirm_token toy printed ≡ inl (codes "x", codes "{}")
unfolding split_confirm_token text_eq lookup delete
toy-splits = refl

toy-empty : toy_object (codes "{}") ≡ some []
unfolding text_eq
toy-empty = refl
