-- ===== src/Plugin/Confirm/Binding.antt =====
-- What a confirmation is bound to: the session, the tool, the arguments and a time.
use streamcore_server.Base.{
  Bool-cases, Distinct, Option, Option-cases, Text, [], arith, delete, if◌then◌else◌, inl, inr,
  insert-Distinct, is_empty, kept, lookup, lookup-delete_self, lookup-insert_self, lookup-sweep,
  lookup-sweep-none, ltb, none, refl, some, sweep-Distinct, text_eq_iff, true, ℕ, ◌+◌, ◌↔◌, ◌∙◌,
  ◌≡◌, ◌≢◌, ◌≤◌,
}
use streamcore_server.Plugin.Confirm.{
  ConfirmationStore, Call, gate, consume, PendingConfirmation, challenge, run, refuse, not_valid,
  sweep_locked, verdict_of, check_entry, Refusal, issue,
}

-- A pending token pays for the call: same session, tool and arguments, not expired.
abbrev pub Covers : ConfirmationStore → Call → ℕ → Type 0
Covers s c now =
    (e : PendingConfirmation) × (lookup c.token s.pending ≡ some e)
    × (now ≤ e.expires)
    × (e.session_id ≡ c.session_id)
    × (e.tool ≡ c.tool)
    × (e.args_hash ≡ c.hash)

-- The sweep drops the expired, and no other.
swept :
    (s : ConfirmationStore) (now : ℕ) (k : Text)
    → Distinct s.pending
    → lookup k (sweep_locked s now).pending ≡ kept (λ e. ltb e.expires now) (lookup k s.pending)
unfolding sweep_locked
swept s now k d = lookup-sweep (λ (e : PendingConfirmation). ltb e.expires now) k s.pending d

swept_none :
    (s : ConfirmationStore) (now : ℕ) (k : Text)
    → lookup k s.pending ≡ none
    → lookup k (sweep_locked s now).pending ≡ none
unfolding sweep_locked
swept_none s now k f =
    lookup-sweep-none (λ (e : PendingConfirmation). ltb e.expires now) k s.pending f

swept_out :
    (s : ConfirmationStore) (now : ℕ) (k : Text) (e : PendingConfirmation)
    → Distinct s.pending
    → lookup k s.pending ≡ some e
    → lookup k (sweep_locked s now).pending ≡ (if ltb e.expires now then none else some e)
swept_out s now k e d f = rw (swept s now k d) (rw f)

consume_absent :
    (s : ConfirmationStore) (token session_id tool hash : Text) (now : ℕ)
    → lookup token (sweep_locked s now).pending ≡ none
    → consume s token session_id tool hash now ≡ (sweep_locked s now, some not_valid)
unfolding consume
consume_absent s token session_id tool hash now f = rw (f, consume)

consume_present :
    (s : ConfirmationStore) (token session_id tool hash : Text) (now : ℕ) (e : PendingConfirmation)
    → lookup token (sweep_locked s now).pending ≡ some e
    → consume s token session_id tool hash now ≡ (
      record (sweep_locked s now) { pending = delete token (sweep_locked s now).pending },
      check_entry e session_id tool hash,
    )
unfolding consume
consume_present s token session_id tool hash now e f = rw (f, consume)

check_entry_accepts :
    (e : PendingConfirmation) (session_id tool hash : Text)
    → (check_entry e session_id tool hash ≡ none)
      ↔ ((e.session_id ≡ session_id) × (e.tool ≡ tool) × (e.args_hash ≡ hash))
unfolding check_entry
check_entry_accepts e session_id tool hash = (
  λ h. ground (
    arith,
    text_eq_iff e.session_id session_id,
    text_eq_iff e.tool tool,
    text_eq_iff e.args_hash hash,
  ),
  λ h. ground (
    arith,
    text_eq_iff e.session_id session_id,
    text_eq_iff e.tool tool,
    text_eq_iff e.args_hash hash,
  ),
)

-- What a token that is found in the store pays for.
abbrev Pays : Option PendingConfirmation → Text → Text → Text → ℕ → Type 0
Pays o session_id tool hash now =
    (e : PendingConfirmation) × (o ≡ some e)
    × (now ≤ e.expires)
    × (e.session_id ≡ session_id)
    × (e.tool ≡ tool)
    × (e.args_hash ≡ hash)

consume-Pays :
    (s : ConfirmationStore) (token session_id tool hash : Text) (now : ℕ)
    → Distinct s.pending
    → (consume s token session_id tool hash now).1 ≡ none
    → Pays (lookup token s.pending) session_id tool hash now
consume-Pays s token session_id tool hash now d h = elim (Option-cases (lookup token s.pending)) [
  | inl f ↦
      let gone =
        consume_absent s token session_id tool hash now (rw (swept s now token d) (rw f)) in
      ground arith
  | inr (e, f) ↦
      let held = swept_out s now token e d f in
      elim (Bool-cases (ltb e.expires now)) [
        | inl late ↦
            let gone = consume_absent s token session_id tool hash now (held ∙ rw late) in
            ground arith
        | inr soon ↦
            let found = consume_present s token session_id tool hash now e (held ∙ rw soon) in
            let (a, b, c) = (check_entry_accepts e session_id tool hash).0 (rw found at h) in
            (e, f, ground arith, a, b, c)
      ]
]

consume_paid :
    (s : ConfirmationStore) (token session_id tool hash : Text) (now : ℕ)
    → Distinct s.pending
    → Pays (lookup token s.pending) session_id tool hash now
    → (consume s token session_id tool hash now).1 ≡ none
consume_paid s token session_id tool hash now d (e, f, soon, a, b, c) =
    let held = swept_out s now token e d f in
    rw (consume_present s token session_id tool hash now e (held ∙ ground arith))
      ((check_entry_accepts e session_id tool hash).1 (a, b, c))

consume_burns :
    (s : ConfirmationStore) (token session_id tool hash : Text) (now : ℕ)
    → lookup token (consume s token session_id tool hash now).0.pending ≡ none
consume_burns s token session_id tool hash now =
    elim (Option-cases (lookup token (sweep_locked s now).pending)) [
      | inl f ↦ rw (consume_absent s token session_id tool hash now f) f
      | inr (e, f) ↦
          rw (consume_present s token session_id tool hash now e f)
            (lookup-delete_self token (sweep_locked s now).pending)
    ]

-- The gate of a tool that asks for a confirmation, with a token and without.
gate-consume :
    (s : ConfirmationStore) (c : Call) (now : ℕ) (new : Text)
    → c.confirmation_required ≡ true
    → c.token ≢ []
    → gate s c now new ≡ (
      (consume s c.token c.session_id c.tool c.hash now).0,
      verdict_of (consume s c.token c.session_id c.tool c.hash now).1,
    )
unfolding gate
gate-consume s c now new h given = ground arith

gate-issue :
    (s : ConfirmationStore) (c : Call) (now : ℕ) (new : Text)
    → c.confirmation_required ≡ true
    → c.token ≡ []
    → gate s c now new ≡ (issue s c.session_id c.tool c.hash now new, challenge new)
unfolding gate
gate-issue s c now new h e = ground arith

is_empty_iff : (t : Text) → is_empty t ≡ true → t ≡ []
is_empty_iff t h = ground arith

verdict_runs : (r : Option Refusal) → (verdict_of r ≡ run) ↔ (r ≡ none)
verdict_runs r = (λ h. ground arith, λ h. ground arith)

-- A call of a tool that asks for a confirmation, with at most one pending entry to a token, runs
-- exactly if it carries a token that is pending for the same session, the same tool and the same
-- arguments and has not expired.
pub gate_runs :
    (s : ConfirmationStore) (c : Call) (now : ℕ) (new : Text)
    → Distinct s.pending
    → c.confirmation_required ≡ true
    → ((gate s c now new).1 ≡ run) ↔ ((c.token ≢ []) × Covers s c now)
gate_runs s c now new d h = (
  λ r. elim (Bool-cases (is_empty c.token)) [
    | inl e ↦ let no_token = gate-issue s c now new h (is_empty_iff c.token e) in ground arith
    | inr e ↦
        let given : c.token ≢ [] = ground arith in
        let paid = (verdict_runs _).0 (rw (gate-consume s c now new h given) at r) in
        (given, consume-Pays s c.token c.session_id c.tool c.hash now d paid)
  ],
  λ p.
      rw (gate-consume s c now new h p.0)
        (rw (consume_paid s c.token c.session_id c.tool c.hash now d p.1)),
)

-- Whatever the verdict on a call of a tool that asks for a confirmation, the token that the call
-- carried, if it carried one, is not pending after it: it cannot be used again.
pub gate_burns :
    (s : ConfirmationStore) (c : Call) (now : ℕ) (new : Text)
    → c.confirmation_required ≡ true
    → c.token ≢ []
    → lookup c.token (gate s c now new).0.pending ≡ none
gate_burns s c now new h given =
    rw (gate-consume s c now new h given) (consume_burns s c.token c.session_id c.tool c.hash now)

issue-lookup :
    (s : ConfirmationStore) (session_id tool hash : Text) (now : ℕ) (new : Text)
    → lookup new (issue s session_id tool hash now new).pending
      ≡ some
          (record { session_id = session_id; tool = tool; args_hash = hash; expires = now + s.ttl })
unfolding issue
issue-lookup s session_id tool hash now new = lookup-insert_self new _ (sweep_locked s now).pending

pub issue-Distinct :
    (s : ConfirmationStore) (session_id tool hash : Text) (now : ℕ) (new : Text)
    → Distinct s.pending
    → Distinct (issue s session_id tool hash now new).pending
unfolding issue
issue-Distinct s session_id tool hash now new d =
    insert-Distinct new _ (sweep_locked s now).pending
      (sweep-Distinct (λ (e : PendingConfirmation). ltb e.expires now) s.pending d)

-- The two calls of a confirmation, with at most one pending entry to a token: a call without a
-- token is answered by a challenge and runs nothing; the same call again, with the challenge's
-- token, which is not empty, and within the lifetime, runs; a third is refused.
pub gate_twice :
    (s : ConfirmationStore) (c : Call) (now later last : ℕ) (new other : Text)
    → Distinct s.pending
    → c.confirmation_required ≡ true
    → c.token ≡ []
    → new ≢ []
    → later ≤ now + s.ttl
    → let again : Call = record c { token = new } in
      let p = gate s c now new in
      let q = gate p.0 again later other in
      (p.1 ≡ challenge new) × (q.1 ≡ run) × ((gate q.0 again last other).1 ≡ refuse not_valid)
gate_twice s c now later last new other d h e given soon =
    rw (gate-issue s c now new h e)
      (refl, runs, rw (gate-consume (gate p again later other).0 again last other h given) spent)
  where
    again : Call
    again = record c { token = new }

    p : ConfirmationStore
    p = issue s c.session_id c.tool c.hash now new

    runs : (gate p again later other).1 ≡ run
    runs =
        (gate_runs p again later other (issue-Distinct s c.session_id c.tool c.hash now new d) h).1
          (given, (_, issue-lookup s c.session_id c.tool c.hash now new, soon, refl, refl, refl))

    burned : lookup new (sweep_locked (gate p again later other).0 last).pending ≡ none
    burned =
        swept_none (gate p again later other).0 last new (gate_burns p again later other h given)

    spent :
        verdict_of (consume (gate p again later other).0 new c.session_id c.tool c.hash last).1
        ≡ refuse not_valid
    spent =
        rw (consume_absent (gate p again later other).0 new c.session_id c.tool c.hash last burned)
