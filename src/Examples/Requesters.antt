-- ===== src/Examples/Requesters.antt =====
-- Requests that share a slot of the limiter, and a conversation that was cut off in a call of a tool.
use streamcore_server.Base.{
  List, [], codes, insert, lookup, refl, replicate, some, text_eq, true, ◌++◌, ◌∷◌, ◌≡◌, ◌≤◌,
}
use streamcore_server.Strings.{member}
use streamcore_server.Tts.Limiter.{Limiter, Phase}
use streamcore_server.Llm.History.{Message, Role, reconcile_history, placeholder, begin_chat}
use streamcore_server.Llm.Chat.{Call, Completion, Output, chat}
use streamcore_server.Llm.Chat.Grouping.{chat-grouped}
use streamcore_server.Llm.Chat.Rounds.{count, chat_settles}
use streamcore_server.Llm.History.Window.{grouped}
use streamcore_server.Llm.History.Pairing.{reconcile_history-grouped}
use streamcore_server.Llm.History.Pairing.Settled.{asked, settled, no_repeats}

abbrev one_slot : Limiter
one_slot = record { limit = 1; held = 1; in_use = 1; waiting = 1 }

abbrev phases : List Phase
phases = Phase.relaying ∷ Phase.queued ∷ []

abbrev prompt : Message
prompt = record {
  role = Role.system;
  content = codes "be brief";
  tool_call_id = [];
  tool_calls = [];
}

abbrev request : Message
request = record {
  role = Role.assistant;
  content = [];
  tool_call_id = [];
  tool_calls = codes "a" ∷ codes "b" ∷ [];
}

abbrev result_a : Message
result_a = record {
  role = Role.tool;
  content = codes "done";
  tool_call_id = codes "a";
  tool_calls = [];
}

abbrev cut_off : List Message
cut_off = prompt ∷ request ∷ result_a ∷ []

cut_off-grouped : grouped [] cut_off ≡ true
unfolding grouped text_eq
cut_off-grouped = refl

cut_off-asked : no_repeats (asked cut_off) ≡ true
unfolding asked member text_eq
cut_off-asked = refl

reconcile_history-grouped_example :
    let q = reconcile_history cut_off in
    (grouped [] q ≡ true)
    × (asked q ≡ asked cut_off)
    × (settled q ≡ true)
    × (reconcile_history q ≡ q)
reconcile_history-grouped_example = reconcile_history-grouped cut_off cut_off-grouped cut_off-asked

patched : reconcile_history cut_off ≡ prompt ∷ request ∷ placeholder (codes "b") ∷ result_a ∷ []
unfolding reconcile_history member text_eq
patched = refl

abbrev long : List Message
long = replicate 20 request ++ (result_a ∷ replicate 20 request)

long-grouped : grouped [] (prompt ∷ long) ≡ true
unfolding grouped text_eq
long-grouped = refl

abbrev lookup_call : Call
lookup_call = record { id = codes "1"; name = codes "weather"; arguments = codes "{}" }

-- A model that asks for the same call whatever it is told.
abbrev stuck : List Message → Completion
stuck h = Completion.called (codes "hm") lookup_call []

abbrev sunny : List Message → Call → Output
sunny h c = Output.returned (codes "sunny")

chat_settles_example :
    let t = (chat stuck (some sunny) (codes "Weather?") (prompt ∷ [])).0 in
    (t.requests ≤ 6) × (count (codes "weather|{}") t.runs ≤ 1)
chat_settles_example =
    chat_settles stuck (some sunny) (codes "Weather?") (prompt ∷ []) (codes "weather|{}")

stuck_requests : (chat stuck (some sunny) (codes "Weather?") (prompt ∷ [])).0.requests ≡ 3
unfolding chat lookup insert text_eq
stuck_requests = refl

chat-grouped_example :
    let first = begin_chat (codes "Weather?") cut_off in
    (grouped [] first ≡ true)
    × (settled first ≡ true)
    × (grouped [] (chat stuck (some sunny) (codes "Weather?") cut_off).0.history ≡ true)
chat-grouped_example =
    chat-grouped stuck (some sunny) (codes "Weather?") cut_off cut_off-grouped cut_off-asked
