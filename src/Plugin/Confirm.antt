-- ===== src/Plugin/Confirm.antt =====
-- internal/plugin/confirm.go: the two-call gate for tools that ask for a confirmation. Tokens and
-- the current time are arguments; the mutex makes `issue` and `consume` one step each.
pub mod Split
pub mod Binding
pub mod Accounting
use streamcore_server.Base.{
  Bool, Map, Option, Text, [], delete, if◌then◌else◌, insert, is_empty, lookup, ltb, none, not,
  some, sweep, text_eq, ℕ, ◌*◌, ◌+◌, ◌==◌, ◌||◌,
}

pub record PendingConfirmation : Type 0 where
  pub session_id : Text
  pub tool : Text
  pub args_hash : Text
  pub expires : ℕ

pub record ConfirmationStore : Type 0 where
  pub pending : Map PendingConfirmation
  pub ttl : ℕ

pub data Refusal : Type 0 where
  token_not_text encode_failed not_valid args_changed : Refusal

abbrev pub default_confirmation_ttl : ℕ
default_confirmation_ttl = 300 * 1_000_000_000

-- A lifetime that is not positive is 0 here.
unfoldable pub new_confirmation_store : ℕ → ConfirmationStore
new_confirmation_store ttl = record {
  pending = [];
  ttl = if ttl == 0 then default_confirmation_ttl else ttl;
}

unfoldable pub sweep_locked : ConfirmationStore → ℕ → ConfirmationStore
sweep_locked s now = record s { pending = sweep (λ e. ltb e.expires now) s.pending }

-- `token` is the random token of this call.
unfoldable pub issue : ConfirmationStore → Text → Text → Text → ℕ → Text → ConfirmationStore
unfolding sweep_locked
issue s session_id tool hash now token =
    let s' = sweep_locked s now in
    record s' {
      pending =
          insert token
            (record {
              session_id = session_id;
              tool = tool;
              args_hash = hash;
              expires = now + s.ttl;
            })
            s'.pending;
    }

check_entry : PendingConfirmation → Text → Text → Text → Option Refusal
check_entry e session_id tool hash =
    if not (text_eq e.session_id session_id) || not (text_eq e.tool tool)
    then some not_valid
    else if not (text_eq e.args_hash hash)
    then some args_changed
    else none

-- The token is burned on every path that finds it. `none` is the answer without an error.
unfoldable pub consume :
    ConfirmationStore → Text → Text → Text → Text → ℕ → ConfirmationStore × Option Refusal
unfolding check_entry sweep_locked
consume s token session_id tool hash now =
    let s' = sweep_locked s now in
    elim (lookup token s'.pending) [
      | none ↦ (s', some not_valid)
      | some e ↦
          (record s' { pending = delete token s'.pending }, check_entry e session_id tool hash)
    ]

-- What a call is to the gate: who calls which tool, the token that the arguments carried (empty if
-- none), the hash of the rest, and whether the tool asks for a confirmation.
pub record Call : Type 0 where
  pub session_id : Text
  pub tool : Text
  pub token : Text
  pub hash : Text
  pub confirmation_required : Bool

-- Run the tool, hand a challenge with its token to the model, or report an error.
pub data Verdict : Type 0 where
  run : Verdict
  challenge : Text → Verdict
  refuse : Refusal → Verdict

abbrev pub verdict_of : Option Refusal → Verdict
verdict_of none = run
verdict_of (some r) = refuse r

-- `Gate`, once the token is split off the arguments; `new` is the token of a challenge.
unfoldable pub gate : ConfirmationStore → Call → ℕ → Text → ConfirmationStore × Verdict
gate s c now new =
    if not c.confirmation_required
    then (s, run)
    else if not (is_empty c.token)
    then (let (s', r) = consume s c.token c.session_id c.tool c.hash now in (s', verdict_of r))
    else (issue s c.session_id c.tool c.hash now new, challenge new)
