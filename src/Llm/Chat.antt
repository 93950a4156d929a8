-- ===== src/Llm/Chat.antt =====
-- internal/llm/openai.go: one turn of a conversation, with the rounds of tool calls in it, where no other turn of the client
-- runs at the same time: the code takes its mutex anew for each change of the history. The service
-- and the tools are parameters, functions of the history at the time; how often the one is asked
-- and which tools are run is written down.
pub mod Rounds
pub mod Grouping
use streamcore_server.Base.{
  Bool, List, Map, Option, Text, [], codes, false, if◌then◌else◌, insert, leb, lookup, none, not,
  some, suc, true, zero, ℕ, ◌&&◌, ◌++◌, ◌+◌, ◌∷◌,
}
use streamcore_server.Llm.History.{Message, Role, prune_history, begin_chat}

-- ToolCall
pub record Call : Type 0 where
  pub id : Text
  pub name : Text
  pub arguments : Text

-- What a request ends with: an error, a text, or a text and calls of tools, of which there is one
-- or more.
pub data Completion : Type 0 where
  failed spoke : Text → Completion
  called : Text → Call → List Call → Completion

-- What a tool's handler returns.
pub data Output : Type 0 where
  returned erred : Text → Output

pub record Turn : Type 0 where
  pub history : List Message
  pub seen : Map ℕ
  pub requests : ℕ
  -- The calls that a tool has returned from, the latest first.
  pub runs : List Text

-- What Chat returns: an error or a text.
pub data Reply : Type 0 where
  error text : Text → Reply

abbrev pub max_tool_rounds : ℕ
max_tool_rounds = 4

unfoldable pub signature : Call → Text
signature c = c.name ++ (b'|' ∷ c.arguments)

abbrev pub call_ids : List Call → List Text
call_ids [] = []
call_ids (c ∷ cs) = c.id ∷ call_ids cs

abbrev pub assistant_message : Text → List Text → Message
assistant_message content ids = record {
  role = Role.assistant;
  content = content;
  tool_call_id = [];
  tool_calls = ids;
}

abbrev pub tool_message : Text → Text → Message
tool_message output id = record {
  role = Role.tool;
  content = output;
  tool_call_id = id;
  tool_calls = [];
}

abbrev pub system_message : Text → Message
system_message content = record {
  role = Role.system;
  content = content;
  tool_call_id = [];
  tool_calls = [];
}

abbrev duplicate_note : Text → Text
duplicate_note name =
    codes "The tool "
    ++ (name
        ++ codes
            " was already called with these arguments in this turn and returned the same result. Do not call it again; answer the user directly.")

abbrev pub times_seen : Text → Map ℕ → ℕ
times_seen sig seen = elim (lookup sig seen) [ none ↦ 0 | some n ↦ n ]

-- The tool's result in the history.
unfoldable pub append_message : Turn → Message → Turn
append_message t m = record t { history = t.history ++ (m ∷ []) }

unfoldable pub finish_run : Turn → Call → Output → Turn
unfolding append_message signature
finish_run t c (returned output) =
    append_message
      (record t {
        seen = insert (signature c) (times_seen (signature c) t.seen + 1) t.seen;
        runs = signature c ∷ t.runs;
      })
      (tool_message output c.id)
finish_run t c (erred message) = append_message t (tool_message (codes "Error: " ++ message) c.id)

abbrev pub budget_note : Text
budget_note =
    codes
      "You've used your tool-call budget for this turn. Reply to the user in plain text now without calling any more tools."

abbrev pub stop_note : Text
stop_note =
    codes
      "Stop calling tools. Reply to the user in plain text explaining what you can and cannot help with based on the tools available in this session."

-- One call of a round, and whether it was a duplicate.
unfoldable pub run_call : (List Message → Call → Output) → Turn → Call → Turn × Bool
unfolding signature append_message finish_run
run_call handle t c =
    if leb 1 (times_seen (signature c) t.seen)
    then (append_message t (tool_message (duplicate_note c.name) c.id), true)
    else (finish_run t c (handle t.history c), false)

-- The calls of a round, and whether all were duplicates.
unfoldable pub run_calls : (List Message → Call → Output) → Turn → List Call → Turn × Bool
unfolding run_call
run_calls handle t [] = (t, true)
run_calls handle t (c ∷ cs) =
    let (q, repeated) = run_call handle t c in
    let (r, repeated_all) = run_calls handle q cs in (r, repeated && repeated_all)

abbrev pub start_turn : Text → List Message → Turn
start_turn prompt history = record {
  history = begin_chat prompt history;
  seen = [];
  requests = 0;
  runs = [];
}

module _ (complete : List Message → Completion) where
  -- streamCompletion: what it leaves in the history.
  unfoldable pub record_completion : Turn → Completion → Turn
  record_completion t (failed partial) = record t { requests = t.requests + 1 }
  record_completion t (spoke content) = record t {
    history = prune_history (t.history ++ (assistant_message content [] ∷ []));
    requests = t.requests + 1;
  }
  record_completion t (called content c cs) = record t {
    history = prune_history (t.history ++ (assistant_message [] (call_ids (c ∷ cs)) ∷ []));
    requests = t.requests + 1;
  }

  abbrev final_text : Completion → Reply
  final_text (failed message) = error message
  final_text (spoke content) = text content
  final_text (called content c cs) = text content

  unfoldable pub force_text_response : Turn → Text → Turn × Reply
  unfolding append_message record_completion
  force_text_response t instruction =
      let q = append_message t (system_message instruction) in
      let c = complete q.history in (record_completion q c, final_text c)

  -- After the calls of a round, with the rounds that come next.
  unfoldable pub next_round : (Turn → Turn × Reply) → Turn × Bool → Turn × Reply
  unfolding force_text_response
  next_round again (t, true) = force_text_response t stop_note
  next_round again (t, false) = again t

  -- The rest of a round: the handler, if there is one, and the rounds that come next, if the budget
  -- is not used up.
  unfoldable pub answer :
      Option (List Message → Call → Output)
      → Option (Turn → Turn × Reply)
      → Turn
      → Completion
      → Turn × Reply
  unfolding force_text_response next_round run_calls
  answer handler again t (failed message) = (t, error message)
  answer handler again t (spoke content) = (t, text content)
  answer handler none t (called content c cs) = force_text_response t budget_note
  answer none (some again) t (called content c cs) = (t, text content)
  answer (some handle) (some again) t (called content c cs) =
      next_round again (run_calls handle t (c ∷ cs))

  module _ (handler : Option (List Message → Call → Output)) where
    -- The loop, by the rounds that are left.
    unfoldable pub rounds : ℕ → Turn → Turn × Reply
    unfolding record_completion answer
    rounds zero t = let c = complete t.history in answer handler none (record_completion t c) c
    rounds (suc left) t =
        let c = complete t.history in answer handler (some (rounds left)) (record_completion t c) c

    -- Chat
    unfoldable pub chat : Text → List Message → Turn × Reply
    unfolding rounds
    chat prompt history = rounds max_tool_rounds (start_turn prompt history)
