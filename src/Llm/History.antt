-- ===== src/Llm/History.antt =====
-- internal/llm/openai.go: the messages of a conversation, with calls of tools and their results. Of a
-- tool call, the id is modelled.
pub mod Pairing
pub mod Window
use streamcore_server.Base.{
  Bool, List, Text, [], codes, drop, false, if◌then◌else◌, is_empty, leb, length, not, suc, true,
  zero, ℕ, ◌&&◌, ◌++◌, ◌+◌, ◌-◌, ◌∷◌,
}
use streamcore_server.Strings.{member}

pub data Role : Type 0 where
  system user assistant tool : Role

-- openai.ChatCompletionMessage
pub record Message : Type 0 where
  pub role : Role
  pub content : Text
  pub tool_call_id : Text
  pub tool_calls : List Text

abbrev pub is_assistant : Role → Bool
is_assistant assistant = true
is_assistant _ = false

abbrev pub is_tool : Role → Bool
is_tool tool = true
is_tool _ = false

abbrev pub is_system : Role → Bool
is_system system = true
is_system _ = false

-- AppendSystemPrompt, with the client's own prompt in front.
unfoldable pub append_system_prompt : Text → Text → List Message → List Message
append_system_prompt prompt text [] = []
append_system_prompt prompt text (m ∷ h) =
    if not (is_empty text) && is_system m.role
    then record m { content = prompt ++ text } ∷ h
    else m ∷ h

abbrev pub message : Role → Text → Message
message role content = record { role = role; content = content; tool_call_id = []; tool_calls = [] }

-- Reset, and the history of a new client.
unfoldable pub reset : Text → List Message
unfolding message
reset prompt = message system prompt ∷ []

-- Pass 1 of reconcileHistory: the calls that were asked for, with the index of the message.
unfoldable pub calls_at : ℕ → List Text → List (ℕ × Text)
calls_at i [] = []
calls_at i (id ∷ ids) = (i, id) ∷ calls_at i ids

unfoldable pub pending_from : ℕ → List Message → List (ℕ × Text)
unfolding calls_at
pending_from i [] = []
pending_from i (m ∷ h) =
    let rest = pending_from (suc i) h in
    if is_assistant m.role then calls_at i m.tool_calls ++ rest else rest

unfoldable pub answered_ids : List Message → List Text
answered_ids [] = []
answered_ids (m ∷ h) = if is_tool m.role then m.tool_call_id ∷ answered_ids h else answered_ids h

-- Pass 2: the calls that get a placeholder.
unfoldable pub unanswered : List (ℕ × Text) → List Text → List (ℕ × Text)
unanswered [] answered = []
unanswered ((i, id) ∷ pending) answered = elim (member id answered) [
  | true ↦ unanswered pending answered
  | false ↦ (i, id) ∷ unanswered pending (id ∷ answered)
]

abbrev pub placeholder : Text → Message
placeholder id = record {
  role = tool;
  content = codes "Tool execution was cancelled.";
  tool_call_id = id;
  tool_calls = [];
}

abbrev pub insert_at : ℕ → Message → List Message → List Message
insert_at zero m h = m ∷ h
insert_at (suc i) m [] = m ∷ []
insert_at (suc i) m (x ∷ h) = x ∷ insert_at i m h

-- Pass 3: the last patch first.
unfoldable pub splice : List (ℕ × Text) → List Message → List Message
splice [] h = h
splice ((i, id) ∷ patches) h = insert_at (suc i) (placeholder id) (splice patches h)

unfoldable pub reconcile_history : List Message → List Message
unfolding splice unanswered pending_from answered_ids
reconcile_history h = splice (unanswered (pending_from 0 h) (answered_ids h)) h

-- Chat, up to its first request.
unfoldable pub begin_chat : Text → List Message → List Message
unfolding reconcile_history message
begin_chat text h = reconcile_history h ++ (message user text ∷ [])

abbrev pub window : ℕ
window = 30

unfoldable pub drop_tools : List Message → List Message
drop_tools [] = []
drop_tools (m ∷ h) = if is_tool m.role then drop_tools h else m ∷ h

abbrev pub system_head : List Message → List Message
system_head [] = []
system_head (m ∷ h) = if is_system m.role then m ∷ [] else []

unfoldable pub prune_history : List Message → List Message
unfolding drop_tools
prune_history h =
    if leb (length h) (window + 1)
    then h
    else system_head h ++ drop_tools (drop (length h - window) h)
