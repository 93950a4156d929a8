-- ===== src/Pipeline/ToolGate/Handler.antt =====
-- internal/pipeline/pipeline.go and internal/pipeline/partial.go: which calls reach a tool, from the model and
-- from a partial.
use streamcore_server.Base.{
  Bool-cases, Distinct, Option, Option-cases, Text, [], arith, false, inl, inr, none, refl, some, ℕ,
  ◌≡◌, ◌≢◌, ◌⊎◌,
}
use streamcore_server.Plugin.Confirm.{
  ConfirmationStore, Verdict, run, challenge, refuse, Call, gate, Refusal,
}
use streamcore_server.Plugin.Confirm.Split.{gate_args, split_confirm_token, hash_args}
use streamcore_server.Plugin.Confirm.Split as Split
use streamcore_server.Plugin.Confirm.Binding.{Covers, gate_runs}
use streamcore_server.Plugin.Manager.{Tool, Manager, get_tool, spec_of}
use streamcore_server.Pipeline.ToolGate.{Channel, Outside, Hands, handle_call, after_gate}

module _ {F : Type 0} (o : Outside) (j : Split.Json) (executes : Tool F → Text → Option Text) where
  -- The call that the gate sees.
  abbrev pub call_of : Tool F → Text → Text → Text → Call
  call_of t session token clean = record {
    session_id = session;
    tool = (spec_of t).name;
    token = token;
    hash = hash_args j clean;
    confirmation_required = (spec_of t).confirmation_required;
  }

  -- The tool may run: it does not ask for a confirmation, or the arguments carried a token that was issued for the
  -- same session, tool and arguments and has not expired.
  abbrev pub MayRun : ConfirmationStore → Tool F → Text → Text → ℕ → Type 0
  MayRun s t session args now =
      (token : Text) × (clean : Text) × (split_confirm_token j args ≡ inl (token, clean))
      × (((spec_of t).confirmation_required ≡ false)
          ⊎ ((token ≢ []) × Covers s (call_of t session token clean) now))

  gate-run :
      (s : ConfirmationStore) (c : Call) (now : ℕ) (new : Text)
      → Distinct s.pending
      → (gate s c now new).1 ≡ run
      → (c.confirmation_required ≡ false) ⊎ ((c.token ≢ []) × Covers s c now)
  gate-run s c now new d v = elim (Bool-cases c.confirmation_required) [
    | inr r ↦ inl r
    | inl r ↦ inr ((gate_runs s c now new d r).0 v)
  ]

  split_run :
      (s : ConfirmationStore) (t : Tool F) (session args : Text) (now : ℕ) (new : Text)
      (r : (Text × Text) ⊎ Refusal)
      → Distinct s.pending
      → split_confirm_token j args ≡ r
      → (gate_args j s session (spec_of t).name (spec_of t).confirmation_required args now new).2
        ≡ run
      → MayRun s t session args now
  unfolding gate_args
  split_run s t session args now new (inr f) d q v = absurd (ground (arith, q))
  split_run s t session args now new (inl (token, clean)) d q v = (
    token,
    clean,
    q,
    gate-run s (call_of t session token clean) now new d (rw (q, gate_args) at v),
  )

  run-cases : (v : Verdict) → (v ≡ run) ⊎ (v ≢ run)
  run-cases run = inl refl
  run-cases (challenge t) = inr (λ e. cc)
  run-cases (refuse r) = inr (λ e. cc)

  after_gate_quiet :
      (t : Tool F) (clean : Option Text) (v : Verdict) (s : ConfirmationStore) (c : Channel)
      → v ≢ run
      → (after_gate o j executes t clean v s c).0.channel ≡ c
  unfolding after_gate
  after_gate_quiet t clean run s c n = absurd (n refl)
  after_gate_quiet t none (challenge token) s c n = refl
  after_gate_quiet t (some x) (challenge token) s c n = refl
  after_gate_quiet t none (refuse r) s c n = refl
  after_gate_quiet t (some x) (refuse r) s c n = refl

  -- A call by the model, with at most one pending entry to a token, leaves the client's channel as it was, its
  -- records of what a partial sent included, unless it names a tool that the model is offered and that may run.
  pub handle_call_guards :
      (m : Manager F) (session name args : Text) (now : ℕ) (new : Text) (h : Hands)
      → Distinct h.store.pending
      → (handle_call o j executes m session name args now new h).0.channel ≢ h.channel
      → (t : Tool F) × (get_tool name m ≡ some t) × MayRun h.store t session args now
  unfolding handle_call
  handle_call_guards m session name args now new h d n = elim (Option-cases (get_tool name m)) [
    | inl g ↦ absurd (n (rw (g, handle_call) refl))
    | inr (t, g) ↦
        let r =
          gate_args j h.store session (spec_of t).name (spec_of t).confirmation_required args now
            new in
        elim (run-cases r.2) [
          | inl v ↦
              (t, g, split_run h.store t session args now new (split_confirm_token j args) d refl v)
          | inr v ↦ absurd (n (rw (g, handle_call) (after_gate_quiet t r.1 r.2 r.0 h.channel v)))
        ]
  ]
