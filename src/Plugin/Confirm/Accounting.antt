-- ===== src/Plugin/Confirm/Accounting.antt =====
-- How many runs the challenges of a history can pay for.
use streamcore_server.Base.{
  Bool-cases, List, Map, Option-cases, Text, [], arith, delete, inl, inr, insert, is_empty, lookup,
  ltb, size, size-delete-le, size-insert, size-sweep-le, some, suc, sweep, true, ℕ, ◌+◌, ◌<◌, ◌∷◌,
  ◌≡◌, ◌≤◌,
}
use streamcore_server.Plugin.Confirm.{
  ConfirmationStore, Call, gate, Verdict, consume, challenge, refuse, issue, verdict_of,
  PendingConfirmation, check_entry, run,
}

-- A history of the gate: each call with its time and the token that a challenge to it would carry.
abbrev pub Calls : Type 0
Calls = List (Call × ℕ × Text)

unfoldable pub verdicts : ConfirmationStore → Calls → List Verdict
verdicts s [] = []
verdicts s ((c, now, new) ∷ cs) = let (s', v) = gate s c now new in v ∷ verdicts s' cs

-- The calls of tools that ask for a confirmation.
abbrev pub AllGated : Calls → Type 0
AllGated [] = Unit {0}
AllGated ((c, _, _) ∷ cs) = (c.confirmation_required ≡ true) × AllGated cs

abbrev pub is_run : Verdict → ℕ
is_run run = 1
is_run (challenge _) = 0
is_run (refuse _) = 0

abbrev pub is_challenge : Verdict → ℕ
is_challenge run = 0
is_challenge (challenge _) = 1
is_challenge (refuse _) = 0

abbrev pub runs : List Verdict → ℕ
runs [] = 0
runs (v ∷ vs) = is_run v + runs vs

abbrev pub challenges : List Verdict → ℕ
challenges [] = 0
challenges (v ∷ vs) = is_challenge v + challenges vs

size-delete_found :
    {V : Type 0} (k : Text) (v : V) (m : Map V) → lookup k m ≡ some v → size (delete k m) < size m
unfolding size delete lookup
size-delete_found k v [] e = cc
size-delete_found k v ((j, w) ∷ m) e = ground (arith, size-delete_found k v m, size-delete-le k m)

size-insert-le : {V : Type 0} (k : Text) (v : V) (m : Map V) → size (insert k v m) ≤ suc (size m)
size-insert-le k v m = ground (arith, size-insert k v m)

consume-size :
    (s : ConfirmationStore) (token session_id tool hash : Text) (now : ℕ)
    → is_run (verdict_of (consume s token session_id tool hash now).1)
        + size (consume s token session_id tool hash now).0.pending
      ≤ size s.pending
unfolding consume
consume-size s token session_id tool hash now =
    let rest = sweep (λ (e : PendingConfirmation). ltb e.expires now) s.pending in
    let less : size rest ≤ size s.pending = size-sweep-le _ s.pending in
    elim (Option-cases (lookup token rest)) [
      | inl f ↦ rw (f, consume) (omega (arith, less))
      | inr (e, f) ↦
          let fewer = size-delete_found token e rest f in
          rw (f, consume)
            (elim (Option-cases (check_entry e session_id tool hash)) [
              | inl g ↦ rw g (omega arith)
              | inr (r, g) ↦ rw g (omega arith)
            ])
    ]

issue-size :
    (s : ConfirmationStore) (session_id tool hash : Text) (now : ℕ) (new : Text)
    → size (issue s session_id tool hash now new).pending ≤ suc (size s.pending)
unfolding issue
issue-size s session_id tool hash now new = omega (
  arith,
  size-insert-le new
      (record { session_id = session_id; tool = tool; args_hash = hash; expires = now + s.ttl })
      (sweep (λ (e : PendingConfirmation). ltb e.expires now) s.pending),
  size-sweep-le (λ (e : PendingConfirmation). ltb e.expires now) s.pending,
)

-- A run takes a token out of the store, a challenge puts at most one in.
gate-size :
    (s : ConfirmationStore) (c : Call) (now : ℕ) (new : Text)
    → c.confirmation_required ≡ true
    → is_run (gate s c now new).1 + size (gate s c now new).0.pending
      ≤ size s.pending + is_challenge (gate s c now new).1
unfolding gate
gate-size s c now new h =
    let used = consume-size s c.token c.session_id c.tool c.hash now in
    let made = issue-size s c.session_id c.tool c.hash now new in
    rw h (elim (Bool-cases (is_empty c.token)) [
      | inl e ↦ rw e (omega arith)
      | inr e ↦ rw e (elim (Option-cases (consume s c.token c.session_id c.tool c.hash now).1) [
        | inl g ↦ rw g (omega (arith, (rw g at used)))
        | inr (r, g) ↦ rw g (omega (arith, (rw g at used)))
      ])
    ])

-- Over any history of calls of tools that ask for a confirmation, at any times, with any tokens:
-- the calls that run are at most the challenges handed out and the tokens pending at the start.
pub runs-le-challenges :
    (s : ConfirmationStore) (cs : Calls)
    → AllGated cs
    → runs (verdicts s cs) ≤ size s.pending + challenges (verdicts s cs)
unfolding verdicts
runs-le-challenges s [] h = omega arith
runs-le-challenges s ((c, now, new) ∷ cs) (required, h) =
    omega (arith, gate-size s c now new required, runs-le-challenges (gate s c now new).0 cs h)
