-- ===== src/Llm/Chat/Rounds.antt =====
-- What one turn asks of the service and of the tools.
use streamcore_server.Base.{
  Bool, Bool-cases, List, Map, Option, Text, [], arith, false, if◌then◌else◌, inl, inr, insert, leb,
  lookup, lookup-insert, none, refl, some, subst, suc, text_eq, text_eq_iff, true, zero, ℕ, ◌+◌,
  ◌∷◌, ◌≡◌, ◌≤◌,
}
use streamcore_server.Llm.History.{Message}
use streamcore_server.Llm.Chat.{
  Call, Completion, Output, Turn, Reply, signature, append_message, finish_run, times_seen,
  record_completion, force_text_response, run_call, run_calls, answer, rounds, chat, start_turn,
  returned, erred, failed, spoke, called, budget_note, next_round, stop_note,
}

abbrev pub count : Text → List Text → ℕ
count sig [] = 0
count sig (s ∷ runs) = if text_eq s sig then suc (count sig runs) else count sig runs

-- The calls that were seen are those that were run, each once.
abbrev Once : Text → Turn → Type 0
Once sig t = (count sig t.runs ≡ times_seen sig t.seen) × (count sig t.runs ≤ 1)

-- A turn that has gone on, by some requests and without running a call again.
abbrev Went : Text → ℕ → Turn → Turn → Type 0
Went sig n t q = (q.requests ≤ t.requests + n) × Once sig q

append-Once : (sig : Text) (t : Turn) (m : Message) → Once sig t → Once sig (append_message t m)
unfolding append_message
append-Once sig t m o = o

times_seen-insert :
    (sig s : Text) (n : ℕ) (seen : Map ℕ)
    → times_seen sig (insert s n seen) ≡ (if text_eq s sig then n else times_seen sig seen)
times_seen-insert sig s n seen = ground (arith, lookup-insert s sig n seen)

count_again :
    (sig s : Text) (runs : List Text) (seen : Map ℕ)
    → leb 1 (times_seen s seen) ≡ false
    → count sig runs ≡ times_seen sig seen
    → count sig runs ≤ 1
    → (count sig (s ∷ runs) ≡ times_seen sig (insert s (times_seen s seen + 1) seen))
      × (count sig (s ∷ runs) ≤ 1)
count_again sig s runs seen e o le = elim (Bool-cases (text_eq s sig)) [
  | inl f ↦
      let g = (text_eq_iff s sig).0 f in
      let z : times_seen s seen ≡ 0 = ground (arith, e) in
      let z' : times_seen sig seen ≡ 0 = subst (λ (x : Text). times_seen x seen ≡ 0) g z in
      rw (times_seen-insert sig s (times_seen s seen + 1) seen, f)
        (omega (arith, o, z, z'), omega (arith, o, z'))
  | inr f ↦ rw (times_seen-insert sig s (times_seen s seen + 1) seen, f) (o, le)
]

finish_run-Once :
    (sig : Text) (t : Turn) (c : Call) (out : Output)
    → leb 1 (times_seen (signature c) t.seen) ≡ false
    → Once sig t
    → Once sig (finish_run t c out)
unfolding finish_run append_message
finish_run-Once sig t c (erred message) e o = o
finish_run-Once sig t c (returned output) e (o, le) =
    count_again sig (signature c) t.runs t.seen e o le

finish_run-requests :
    (t : Turn) (c : Call) (out : Output) → (finish_run t c out).requests ≡ t.requests
unfolding finish_run append_message
finish_run-requests t c (returned output) = refl
finish_run-requests t c (erred message) = refl

run_call-Went :
    (handle : List Message → Call → Output) (sig : Text) (t : Turn) (c : Call)
    → Once sig t
    → Went sig 0 t (run_call handle t c).0
unfolding run_call append_message
run_call-Went handle sig t c o = elim (Bool-cases (leb 1 (times_seen (signature c) t.seen))) [
  | inl e ↦ rw e (omega arith, o)
  | inr e ↦ rw e (
    omega (arith, finish_run-requests t c (handle t.history c)),
    finish_run-Once sig t c (handle t.history c) e o,
  )
]

run_calls-Went :
    (handle : List Message → Call → Output) (sig : Text) (t : Turn) (cs : List Call)
    → Once sig t
    → Went sig 0 t (run_calls handle t cs).0
unfolding run_calls
run_calls-Went handle sig t [] o = (omega arith, o)
run_calls-Went handle sig t (c ∷ cs) o =
    let (le, o') = run_call-Went handle sig t c o in
    let (le', o'') = run_calls-Went handle sig (run_call handle t c).0 cs o' in
    (omega (arith, le, le'), o'')

module _ (complete : List Message → Completion) where
  record_completion-Went :
      (sig : Text) (t : Turn) (c : Completion)
      → Once sig t
      → Went sig 1 t (record_completion complete t c)
  unfolding record_completion
  record_completion-Went sig t (failed m) o = (omega arith, o)
  record_completion-Went sig t (spoke s) o = (omega arith, o)
  record_completion-Went sig t (called s c cs) o = (omega arith, o)

  force_text_response-Went :
      (sig : Text) (t : Turn) (instruction : Text)
      → Once sig t
      → Went sig 1 t (force_text_response complete t instruction).0
  unfolding force_text_response append_message
  force_text_response-Went sig t instruction o = record_completion-Went sig _ _ o

  next_round-Went :
      (sig : Text) (n : ℕ) (again : Turn → Turn × Reply) (t : Turn) (repeated : Bool)
      → 1 ≤ n
      → ((q : Turn) → Once sig q → Went sig n q (again q).0)
      → Once sig t
      → Went sig n t (next_round complete again (t, repeated)).0
  unfolding next_round
  next_round-Went sig n again t true le h o =
      let (l, o') = force_text_response-Went sig t stop_note o in (omega (arith, l, le), o')
  next_round-Went sig n again t false le h o = h t o

  answer_none-Went :
      (handler : Option (List Message → Call → Output)) (sig : Text) (t : Turn) (c : Completion)
      → Once sig t
      → Went sig 1 t (answer complete handler none t c).0
  unfolding answer
  answer_none-Went handler sig t (failed m) o = (omega arith, o)
  answer_none-Went handler sig t (spoke s) o = (omega arith, o)
  answer_none-Went handler sig t (called s c cs) o = force_text_response-Went sig t budget_note o

  answer_some-Went :
      (handler : Option (List Message → Call → Output)) (sig : Text) (n : ℕ)
      (again : Turn → Turn × Reply) (t : Turn) (c : Completion)
      → 1 ≤ n
      → ((q : Turn) → Once sig q → Went sig n q (again q).0)
      → Once sig t
      → Went sig n t (answer complete handler (some again) t c).0
  unfolding answer
  answer_some-Went handler sig n again t (failed m) le h o = (omega arith, o)
  answer_some-Went handler sig n again t (spoke s) le h o = (omega arith, o)
  answer_some-Went none sig n again t (called s c cs) le h o = (omega arith, o)
  answer_some-Went (some handle) sig n again t (called s c cs) le h o =
      let (q, repeated) = run_calls handle t (c ∷ cs) in
      let (l, o') = run_calls-Went handle sig t (c ∷ cs) o in
      let (l', o'') = next_round-Went sig n again q repeated le h o' in (omega (arith, l, l'), o'')

  module _ (handler : Option (List Message → Call → Output)) where
    rounds-Went :
        (sig : Text) (left : ℕ) (t : Turn)
        → Once sig t
        → Went sig (left + 2) t (rounds complete handler left t).0
    unfolding rounds
    rounds-Went sig zero t o =
        let c = complete t.history in
        let (l, o') = record_completion-Went sig t c o in
        let (l', o'') = answer_none-Went handler sig (record_completion complete t c) c o' in
        (omega (arith, l, l'), o'')
    rounds-Went sig (suc left) t o =
        let c = complete t.history in
        let (l, o') = record_completion-Went sig t c o in
        let (l', o'') =
          answer_some-Went handler sig (left + 2) (rounds complete handler left)
            (record_completion complete t c) c (omega arith) (rounds-Went sig left) o' in
        (omega (arith, l, l'), o'')

    -- Whatever the service and the tools answer, a turn ends after at most six requests to the
    -- service, and no tool is run again with arguments that it has returned from in the turn.
    pub chat_settles :
        (prompt : Text) (history : List Message) (sig : Text)
        → let t = (chat complete handler prompt history).0 in
          (t.requests ≤ 6) × (count sig t.runs ≤ 1)
    unfolding chat lookup
    chat_settles prompt history sig =
        let (l, (_, once)) = rounds-Went sig 4 (start_turn prompt history) (refl, omega arith) in
        (omega (arith, l), once)
