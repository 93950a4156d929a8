-- ===== src/Examples/Agents.antt =====
-- A response that is superseded, a plugin that answers and one that fails to start, and a message that a plugin sends.
use streamcore_server.Base.{
  Option, Text, [], codes, false, if◌then◌else◌, insert, lookup, none, refl, some, text_eq, true, ℕ,
  ◌==◌, ◌∷◌, ◌≡◌,
}
use streamcore_server.Pipeline.Lifecycle.{new_lifecycle, claim, complete}
use streamcore_server.Pipeline.Lifecycle as Lifecycle
use streamcore_server.Pipeline.Lifecycle.Events.{numbered}
use streamcore_server.Pipeline.Agent.{
  Phase, Voice, new_voice, supersede_step, emit_frame, finish_response,
}
use streamcore_server.Pipeline.Agent as Agent
use streamcore_server.Plugin.Host.Restart.{Host, Outcome, Moment, restart_from, next_backoff}
use streamcore_server.Plugin.Host.Restart.Attempts.{failed_handshake_ends}
use streamcore_server.Plugin.Host.Calls.{Table, new_table, Reader, wrote, fresh_waiter, Reply}
use streamcore_server.Plugin.Host.Calls as Calls
use streamcore_server.Plugin.Host.Calls.Matching.{replies_match}
use streamcore_server.Plugin.Host.Calls.Waiters.{all_matched}
use streamcore_server.Plugin.Host.Calls.Jam.{Jammed, ids, call_can_jam}
use streamcore_server.Plugin.Callbacks.{Inbound, Params, Request, request_of, serve}
use streamcore_server.Plugin.Callbacks.Permitted.{Permitted, serve-Permitted}
use streamcore_server.Plugin.Manager.{Tool, new_manager, bind_session}
use streamcore_server.Plugin.Dispatch.{Value}
use streamcore_server.Pipeline.Reflex.Dedup.{Emission}

one_event :
    Lifecycle.Lifecycle.turns (
      complete 1 (codes "hi") (codes "hello") (claim 1 (record new_lifecycle { response_gen = 1 })))
    ≡ 1
unfolding complete claim new_lifecycle streamcore_server.Strings.trim_space
one_event = refl

-- The first turn, and its response.
abbrev superseded : Voice
superseded = supersede_step (supersede_step (supersede_step (supersede_step new_voice)))

-- The build fails once, and then the handshake.
abbrev outcome : ℕ → Outcome
outcome i = if i == 1 then Outcome.failed_early else Outcome.failed_handshake

abbrev undisturbed : ℕ → Moment
undisturbed i = Moment.never

abbrev dead : Host
dead = record { stopping = false; alive = false }

failed_handshake_ends_example : restart_from outcome undisturbed 5 1 1_000_000_000 dead ≡ record {
  host = record { stopping = true; alive = false };
  sleeps = 1_000_000_000 ∷ next_backoff 1_000_000_000 ∷ [];
  gave_up = false;
}
failed_handshake_ends_example =
    failed_handshake_ends outcome undisturbed 1 5 1 1_000_000_000 dead refl
      (refl, refl, (refl, refl))

-- One call, its reply, and the call takes it.
-- A call has its number.
abbrev numbered_one : Table
numbered_one = record {
  next_id = 1;
  numbered = 1 ∷ [];
  waiters = [];
  reader = Reader.reading;
  returned = [];
  written = [];
}

abbrev called : Table
called = record {
  next_id = 1;
  numbered = [];
  waiters = fresh_waiter 1 ∷ [];
  reader = Reader.reading;
  returned = [];
  written = [];
}

began : Calls.Reach called
unfolding new_table Calls.drop_number
began =
    Calls.more numbered_one called
      (Calls.more new_table numbered_one Calls.start (Calls.numbers new_table))
      (Calls.begins numbered_one 1 refl refl)

abbrev answered : Table
answered = record called {
  waiters = record (fresh_waiter 1) { buffer = some (wrote (codes "ok")) } ∷ [];
  written = (1, codes "ok") ∷ [];
}

abbrev took : Table
took = record answered {
  waiters = record (fresh_waiter 1) { phase = Calls.Phase.leaving } ∷ [];
  returned = (1, wrote (codes "ok")) ∷ [];
}

taken : Calls.Reach took
unfolding Calls.find Calls.replace
taken =
    Calls.more answered took
      (Calls.more called answered began
        (Calls.delivers called (fresh_waiter 1) (codes "ok") refl refl refl refl))
      (Calls.takes answered (record (fresh_waiter 1) { buffer = some (wrote (codes "ok")) })
        (wrote (codes "ok")) refl refl refl)

replies_match_example : all_matched took.written took.returned ≡ true
replies_match_example = replies_match took taken

call_can_jam_example :
    (t : Table) × Calls.Later called t
    × ((t' : Table) → Calls.Later t t' → Jammed t' × (ids t'.waiters ≡ ids t.waiters))
call_can_jam_example = call_can_jam called (codes "ok") refl

-- A plugin sends a packet to a conversation that is bound.
abbrev wave : Emission
wave = record { topic = codes "gesture"; payload = [] }

abbrev params : Params
params = record {
  emission = λ s. some (codes "s", wave);
  tool_call = λ s. none;
  completion = λ s. none;
  search = λ s. none;
}

abbrev message : Inbound
message = record { method = codes "emit"; params = []; id = codes "1" }

abbrev answers : ℕ → Request → Option Text
answers k q = some (codes "ok")

abbrev no_tools : Tool ℕ → Text → Text → Option Text
no_tools t session args = none

serve-Permitted_example :
    (q : Request) × (request_of params {V = Value ℕ} [] message ≡ some q)
    × Permitted [] (bind_session (codes "s") (some 1) (new_manager {F = ℕ})) q
unfolding serve text_eq lookup bind_session insert new_manager
serve-Permitted_example =
    serve-Permitted answers no_tools params [] (bind_session (codes "s") (some 1) new_manager)
      message (codes "ok") refl
