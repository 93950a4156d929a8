-- ===== src/Llm/Chat/Grouping.antt =====
-- internal/llm/openai.go: where the results of tools stand in the history of a turn.
use streamcore_server.Base.{
  Bool, Bool-cases, List, Option, Text, [], ap, arith, drop, false, if-either, inl, inr, leb,
  length, length-append, none, refl, some, suc, sym, text_eq, text_eq_self, true, zero, ℕ, ◌++◌,
  ◌+◌, ◌-◌, ◌∙◌, ◌∷◌, ◌≡◌, ◌≤◌,
}
use mathlib.Core.List.{append_assoc, append-nil}
use streamcore_server.Strings.{member}
use streamcore_server.Llm.History.{
  Message, is_tool, is_assistant, is_system, system_head, drop_tools, prune_history, window,
  begin_chat, reconcile_history, answered_ids, message, user,
}
use streamcore_server.Llm.History.Window.{
  grouped, grouped_tool, grouped_other, or_right, drop-grouped, drop_tools-grouped, after_system,
}
use streamcore_server.Llm.History.Pairing.{reconcile_history-grouped}
use streamcore_server.Llm.History.Pairing.Settled.{asked, settled, head_answers, no_repeats}
use streamcore_server.Llm.Chat.{
  Call, Completion, Output, Turn, Reply, call_ids, assistant_message, tool_message, system_message,
  append_message, finish_run, record_completion, force_text_response, run_call, run_calls,
  next_round, answer, rounds, chat, start_turn, budget_note, stop_note, returned, failed, called,
  erred, spoke,
}

-- Results of these calls may come next.
abbrev Open : List Text → List Message → Type 0
Open ids h = (t : List Message) → grouped ids t ≡ true → grouped [] (h ++ t) ≡ true

append-grouped :
    (ids : List Text) (h : List Message) (m : Message) (t : List Message)
    → grouped ids h ≡ true
    → is_tool m.role ≡ false
    → grouped [] (m ∷ t) ≡ true
    → grouped ids (h ++ (m ∷ t)) ≡ true
unfolding grouped
append-grouped ids [] m t g e f = grouped_other ids [] m t e ∙ f
append-grouped ids (x ∷ h) m t g e f = elim (Bool-cases (is_tool x.role)) [
  | inl k ↦ ground (arith, g, k, append-grouped ids h m t)
  | inr k ↦ elim (Bool-cases (is_assistant x.role)) [
    | inl a ↦ rw (grouped, k, a) (append-grouped x.tool_calls h m t (ground (arith, g, k, a)) e f)
    | inr a ↦ rw (grouped, k, a) (append-grouped [] h m t (ground (arith, g, k, a)) e f)
  ]
]

drop-append_last :
    (n : ℕ) (h : List Message) (a : Message) (t : List Message)
    → n ≤ length h
    → drop n (h ++ (a ∷ [])) ++ t ≡ drop n (h ++ (a ∷ t))
drop-append_last zero h a t le = append_assoc h (a ∷ []) t
drop-append_last (suc n) [] a t le = absurd (omega (arith, le))
drop-append_last (suc n) (x ∷ h) a t le = drop-append_last n h a t (omega (arith, le))

drop_tools-append_last :
    (h : List Message) (a : Message) (t : List Message)
    → is_tool a.role ≡ false
    → drop_tools (h ++ (a ∷ [])) ++ t ≡ drop_tools (h ++ (a ∷ t))
unfolding drop_tools
drop_tools-append_last [] a t e = rw (drop_tools, e) refl
drop_tools-append_last (x ∷ h) a t e = elim (Bool-cases (is_tool x.role)) [
  | inl k ↦ rw (drop_tools, k) (drop_tools-append_last h a t e)
  | inr k ↦ rw (drop_tools, k) (ap (x ∷◌) (append_assoc h (a ∷ []) t))
]

drop-split :
    (n : ℕ) (h : List Message) (a : Message)
    → n ≤ length h
    → drop n (h ++ (a ∷ [])) ≡ drop n h ++ (a ∷ [])
drop-split zero h a le = refl
drop-split (suc n) [] a le = absurd (omega (arith, le))
drop-split (suc n) (x ∷ h) a le = drop-split n h a (omega (arith, le))

under_head : (h t : List Message) → grouped [] t ≡ true → grouped [] (system_head h ++ t) ≡ true
under_head [] t g = g
under_head (m ∷ h) t g = elim (Bool-cases (is_system m.role)) [
  | inl e ↦ rw e (after_system m t e g)
  | inr e ↦ rw e g
]

-- What is added to a grouped history and pruned is open to the calls that it asks for.
prune-Open :
    (ids : List Text) (h : List Message) (a : Message)
    → grouped [] h ≡ true
    → is_tool a.role ≡ false
    → ((t : List Message) → grouped ids t ≡ true → grouped [] (a ∷ t) ≡ true)
    → Open ids (prune_history (h ++ (a ∷ [])))
unfolding prune_history
prune-Open ids h a g e k t f =
    let whole = append-grouped [] h a t g e (k t f) in
    let n = length (h ++ (a ∷ [])) - window in
    let le : n ≤ length h = omega (arith, length-append h (a ∷ [])) in
    elim (Bool-cases (leb (length (h ++ (a ∷ []))) (window + 1))) [
      | inl s ↦ rw s (ap (grouped []) (append_assoc h (a ∷ []) t) ∙ whole)
      | inr s ↦
          let (js, g') = drop-grouped n [] (h ++ (a ∷ t)) whole in
          let tail = drop_tools-grouped js (drop n (h ++ (a ∷ t))) g' in
          let front = drop n h in
          let same = ap drop_tools (
            sym (append_assoc front (a ∷ []) t)
            ∙ (ap (λ (x : List Message). x ++ t) (sym (drop-split n h a le))
                ∙ drop-append_last n h a t le)) in
          let kept' =
            ap (λ (x : List Message). drop_tools x ++ t) (drop-split n h a le)
            ∙ (drop_tools-append_last front a t e ∙ same) in
          let head = system_head (h ++ (a ∷ [])) in
          rw s (
            ap (grouped []) (append_assoc head (drop_tools (drop n (h ++ (a ∷ [])))) t)
            ∙ (ap (λ (x : List Message). grouped [] (head ++ x)) kept'
                ∙ under_head (h ++ (a ∷ [])) _ tail))
    ]

Open-grouped : (ids : List Text) (h : List Message) → Open ids h → grouped [] h ≡ true
unfolding grouped
Open-grouped ids h o = ap (grouped []) (sym (append-nil h)) ∙ o [] refl

-- A result of a call that was asked for keeps the history open.
result-Open :
    (ids : List Text) (h : List Message) (output id : Text)
    → member id ids ≡ true
    → Open ids h
    → Open ids (h ++ (tool_message output id ∷ []))
result-Open ids h output id e o t f =
    let m = tool_message output id in
    let g = grouped_tool ids m t refl ∙ rw (e, f) refl in
    ap (grouped []) (append_assoc h (m ∷ []) t) ∙ o (m ∷ t) g

finish_run-Open :
    (ids : List Text) (t : Turn) (c : Call) (out : Output)
    → member c.id ids ≡ true
    → Open ids t.history
    → Open ids (finish_run t c out).history
unfolding finish_run append_message
finish_run-Open ids t c (returned output) e o = result-Open ids t.history output c.id e o
finish_run-Open ids t c (erred message) e o = result-Open ids t.history _ c.id e o

run_call-Open :
    (handle : List Message → Call → Output) (ids : List Text) (t : Turn) (c : Call)
    → member c.id ids ≡ true
    → Open ids t.history
    → Open ids (run_call handle t c).0.history
unfolding run_call append_message
run_call-Open handle ids t c e o =
    if-either (λ (x : Turn × Bool). Open ids x.0.history) _ (result-Open ids t.history _ c.id e o)
      (finish_run-Open ids t c (handle t.history c) e o)

run_calls-Open :
    (handle : List Message → Call → Output) (ids : List Text) (t : Turn) (cs : List Call)
    → ((x : Text) → member x (call_ids cs) ≡ true → member x ids ≡ true)
    → Open ids t.history
    → Open ids (run_calls handle t cs).0.history
unfolding run_calls member
run_calls-Open handle ids t [] k o = o
run_calls-Open handle ids t (c ∷ cs) k o =
    let first : member c.id (c.id ∷ call_ids cs) ≡ true = ground (arith, text_eq_self c.id) in
    run_calls-Open handle ids (run_call handle t c).0 cs
      (λ x e. k x (or_right (text_eq c.id x) _ e)) (run_call-Open handle ids t c (k c.id first) o)

head_answers-user :
    (h : List Message) (prompt : Text)
    → head_answers (h ++ (message user prompt ∷ [])) ≡ head_answers h
head_answers-user [] prompt = refl
head_answers-user (m ∷ h) prompt = ground (arith, head_answers-user h prompt)

settled-user :
    (h : List Message) (prompt : Text) → settled (h ++ (message user prompt ∷ [])) ≡ settled h
settled-user [] prompt = refl
settled-user (m ∷ h) prompt = rw (head_answers-user h prompt, settled-user h prompt) refl

-- The user's message asks for no tool and is no result of one.
asked-user : (h : List Message) (prompt : Text) → asked (h ++ (message user prompt ∷ [])) ≡ asked h
unfolding asked
asked-user [] prompt = refl
asked-user (m ∷ h) prompt = rw (asked-user h prompt) refl

answered_ids-user :
    (h : List Message) (prompt : Text)
    → answered_ids (h ++ (message user prompt ∷ [])) ≡ answered_ids h
unfolding answered_ids
answered_ids-user [] prompt = refl
answered_ids-user (m ∷ h) prompt = rw (answered_ids-user h prompt) refl

module _ (complete : List Message → Completion) where
  asked-Open :
      (t : Turn) (content : Text) (c : Call) (cs : List Call)
      → grouped [] t.history ≡ true
      → Open (call_ids (c ∷ cs)) (record_completion complete t (called content c cs)).history
  unfolding record_completion grouped
  asked-Open t content c cs g =
      prune-Open (call_ids (c ∷ cs)) t.history (assistant_message [] (call_ids (c ∷ cs))) g refl
        (λ ms f. f)

  record_completion-grouped :
      (t : Turn) (c : Completion)
      → grouped [] t.history ≡ true
      → grouped [] (record_completion complete t c).history ≡ true
  unfolding record_completion grouped
  record_completion-grouped t (failed m) g = g
  record_completion-grouped t (spoke s) g =
      Open-grouped [] (record_completion complete t (spoke s)).history
        (prune-Open [] t.history (assistant_message s []) g refl (λ ms f. f))
  record_completion-grouped t (called s c cs) g =
      Open-grouped (call_ids (c ∷ cs)) (record_completion complete t (called s c cs)).history
        (asked-Open t s c cs g)

  force_text_response-grouped :
      (t : Turn) (instruction : Text)
      → grouped [] t.history ≡ true
      → grouped [] (force_text_response complete t instruction).0.history ≡ true
  unfolding force_text_response append_message grouped
  force_text_response-grouped t instruction g =
      let q = append_message t (system_message instruction) in
      record_completion-grouped q (complete q.history)
        (append-grouped [] t.history (system_message instruction) [] g refl refl)

  next_round-grouped :
      (again : Turn → Turn × Reply) (t : Turn) (repeated : Bool)
      → ((q : Turn) → grouped [] q.history ≡ true → grouped [] (again q).0.history ≡ true)
      → grouped [] t.history ≡ true
      → grouped [] (next_round complete again (t, repeated)).0.history ≡ true
  unfolding next_round
  next_round-grouped again t true h g = force_text_response-grouped t stop_note g
  next_round-grouped again t false h g = h t g

  answer_none-grouped :
      (handler : Option (List Message → Call → Output)) (t : Turn) (c : Completion)
      → grouped [] t.history ≡ true
      → grouped [] (answer complete handler none t c).0.history ≡ true
  unfolding answer
  answer_none-grouped handler t (failed m) g = g
  answer_none-grouped handler t (spoke s) g = g
  answer_none-grouped handler t (called s c cs) g = force_text_response-grouped t budget_note g

  answer_some-grouped :
      (handler : Option (List Message → Call → Output)) (again : Turn → Turn × Reply) (t : Turn)
      (c : Completion)
      → ((q : Turn) → grouped [] q.history ≡ true → grouped [] (again q).0.history ≡ true)
      → grouped [] t.history ≡ true
      → grouped []
          (answer complete handler (some again) (record_completion complete t c) c).0.history
        ≡ true
  unfolding answer
  answer_some-grouped handler again t (failed m) h g = record_completion-grouped t (failed m) g
  answer_some-grouped handler again t (spoke s) h g = record_completion-grouped t (spoke s) g
  answer_some-grouped none again t (called s c cs) h g =
      record_completion-grouped t (called s c cs) g
  answer_some-grouped (some handle) again t (called s c cs) h g =
      let ids = call_ids (c ∷ cs) in
      let q = record_completion complete t (called s c cs) in
      let (r, repeated) = run_calls handle q (c ∷ cs) in
      let o = run_calls-Open handle ids q (c ∷ cs) (λ x e. e) (asked-Open t s c cs g) in
      next_round-grouped again r repeated h (Open-grouped ids r.history o)

  module _ (handler : Option (List Message → Call → Output)) where
    rounds-grouped :
        (left : ℕ) (t : Turn)
        → grouped [] t.history ≡ true
        → grouped [] (rounds complete handler left t).0.history ≡ true
    unfolding rounds
    rounds-grouped zero t g =
        let c = complete t.history in
        answer_none-grouped handler (record_completion complete t c) c
          (record_completion-grouped t c g)
    rounds-grouped (suc left) t g =
        answer_some-grouped handler (rounds complete handler left) t (complete t.history)
          (rounds-grouped left) g

    -- If, before a turn that no other turn of the client overlaps, every result of a tool in the history follows the message that
    -- asked for it, and no call is asked for twice: when the service is first asked, every message that asks for calls is
    -- followed by the results of all of them before anything else; and then and after the turn every result follows the
    -- message that asked for it, whatever the service and the tools answer.
    pub chat-grouped :
        (prompt : Text) (history : List Message)
        → grouped [] history ≡ true
        → no_repeats (asked history) ≡ true
        → let first = begin_chat prompt history in
          (grouped [] first ≡ true)
          × (settled first ≡ true)
          × (grouped [] (chat complete handler prompt history).0.history ≡ true)
    unfolding chat begin_chat grouped
    chat-grouped prompt history g n =
        let (g', _, all, _) = reconcile_history-grouped history g n in
        let first =
          append-grouped [] (reconcile_history history) (message user prompt) [] g' refl refl in
        (
          first,
          settled-user (reconcile_history history) prompt ∙ all,
          rounds-grouped 4 (start_turn prompt history) first,
        )
