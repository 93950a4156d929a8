-- ===== src/Session/Conversation.antt =====
-- internal/pipeline/conversation.go and transcript.go: what of a call outlives its transport.
use streamcore_server.Base.{
  Bool, List, Option, Text, [], false, if◌then◌else◌, is_some, none, some, ℕ, ◌%◌, ◌++◌, ◌+◌, ◌^◌,
  ◌∷◌,
}

pub record TranscriptEntry : Type 0 where
  pub role : Text
  pub text : Text
  pub at : ℕ

abbrev pub TranscriptLog : Type 0
TranscriptLog = List TranscriptEntry

unfoldable pub add : TranscriptLog → Text → Text → ℕ → TranscriptLog
add l role text now = l ++ record { role = role; text = text; at = now } ∷ []

-- An LLM client is known by a handle: its history is the provider's business.
pub record ConversationState : Type 0 where
  pub session_id : Text
  pub llm : Option ℕ
  pub log : TranscriptLog
  pub rolling_summary : Text
  pub last_summary_at_entries : ℕ
  pub turn_seq : ℕ

-- `client` is the outcome of llm.NewClient, `none` for its error.
unfoldable pub new_conversation_state : Bool → Option ℕ → Text → Option ConversationState
new_conversation_state realtime client session_id =
    if realtime
    then some (built none)
    else elim client [ none ↦ none | some c ↦ some (built (some c)) ]
  where
    built : Option ℕ → ConversationState
    built llm = record {
      session_id = session_id;
      llm = llm;
      log = [];
      rolling_summary = [];
      last_summary_at_entries = 0;
      turn_seq = 0;
    }

-- The sequence number wraps like a uint64.
unfoldable pub next_turn : ConversationState → ConversationState × ℕ
next_turn c = let seq = (c.turn_seq + 1) % 2 ^ 64 in (record c { turn_seq = seq }, seq)

unfoldable pub has_history : Option ConversationState → Bool
has_history none = false
has_history (some c) = is_some c.llm
