-- ===== src/Pipeline/ToolGate.antt =====
-- internal/pipeline/toolgate.go, the tool handler that New of internal/pipeline/pipeline.go installs, and
-- fireReflex of internal/pipeline/partial.go: a call passes the gate, runs, and its packets go to the client.
-- The data channel is the list of the packets that went out; `writes` says which of the attempts
-- succeed, and `clock` when the emission at a place is looked up. What a tool outside the process
-- answers, JSON and base64 are parameters.
pub mod Emissions
pub mod Handler
pub mod Partials
use streamcore_server.Base.{
  Bool, List, Map, Option, Text, [], codes, false, if◌then◌else◌, is_empty, none, some, suc, true,
  ℕ, ◌++◌, ◌∷◌,
}
use streamcore_server.Pipeline.Reflex.Dedup.{
  Emission, reflex_already_sent, remember_reflex_emission,
}
use streamcore_server.Plugin.Result.{Result, ResultJson, parse_result}
use streamcore_server.Plugin.Confirm.{ConfirmationStore, Verdict, run, challenge, refuse}
use streamcore_server.Plugin.Confirm.Split.{gate_args}
use streamcore_server.Plugin.Confirm.Split as Split
use streamcore_server.Plugin.Manager.{Tool, Manager, get_tool, spec_of}

-- dcDataPacket, whose type is always "data".
pub record Packet : Type 0 where
  pub topic : Text
  pub payload : Text

pub record Channel : Type 0 where
  -- The packets that a partial sent, with their times.
  pub reflex_sent : Map ℕ
  pub wire : List Packet
  pub attempts : ℕ

pub record Outside : Type 0 where
  pub writes : ℕ → Bool
  pub clock : ℕ → ℕ
  pub base64 : Text → Text
  pub results : ResultJson

-- A failure to send ends the loop.
abbrev pub unless_failed : (Channel → Channel × Bool) → Channel × Bool → Channel × Bool
unless_failed rest (c, true) = rest c
unless_failed rest (c, false) = (c, false)

module _ (o : Outside) where
  unfoldable pub packet_of : Emission → Packet
  packet_of e = record {
    topic = e.topic;
    payload = o.base64 (if is_empty e.payload then codes "{}" else e.payload);
  }

  -- The packet, and whether it was sent.
  unfoldable pub emit : Emission → Channel → Channel × Bool
  unfolding packet_of
  emit e c =
      let c' = record c { attempts = suc c.attempts } in
      if o.writes c.attempts
      then (record c' { wire = c.wire ++ (packet_of e ∷ []) }, true)
      else (c', false)

  -- One round of runTool's loop at a place: the flag is false if the call fails.
  unfoldable pub emit_unless_sent : ℕ → Emission → Channel → Channel × Bool
  unfolding emit
  emit_unless_sent i e c =
      let (sent, known) = reflex_already_sent c.reflex_sent e (o.clock i) in
      let c' = record c { reflex_sent = sent } in if known then (c', true) else emit e c'

  unfoldable pub emit_each : ℕ → List Emission → Channel → Channel × Bool
  unfolding emit_unless_sent
  emit_each i [] c = (c, true)
  emit_each i (e ∷ es) c = unless_failed (emit_each (suc i) es) (emit_unless_sent i e c)

  abbrev pub spoken : Text → Channel × Bool → Channel × Option Text
  spoken speak (c, true) = (c, some speak)
  spoken speak (c, false) = (c, none)

  -- runTool from what the tool returned on; none is an error.
  unfoldable pub run_tool : Option Text → Channel → Channel × Option Text
  unfolding emit_each
  run_tool none c = (c, none)
  run_tool (some raw) c =
      let r = parse_result o.results raw in spoken r.speak (emit_each 0 r.emit c)

  -- The loop of fireReflex.
  unfoldable pub fire_emission : ℕ → Emission → Channel → Channel
  unfolding emit
  fire_emission i e c =
      let (c', sent) = emit e c in
      if sent
      then record c' { reflex_sent = remember_reflex_emission c'.reflex_sent e (o.clock i) }
      else c'

  unfoldable pub fire_each : ℕ → List Emission → Channel → Channel
  unfolding fire_emission
  fire_each i [] c = c
  fire_each i (e ∷ es) c = fire_each (suc i) es (fire_emission i e c)

  -- What fireReflex does with the answer of Execute; none is an error.
  unfoldable pub fire_answer : Option Text → Channel → Channel
  unfolding fire_each
  fire_answer none c = c
  fire_answer (some raw) c = fire_each 0 (parse_result o.results raw).emit c

-- fireReflex: the tool of a hit runs with the arguments of the hit.
unfoldable pub fire_reflex :
    {F : Type 0} → Outside → (Tool F → Text → Option Text) → Tool F → Text → Channel → Channel
unfolding fire_answer
fire_reflex o executes t args c = fire_answer o (executes t args) c

-- What a call of a tool comes to: a text for the model, a challenge with its token, or an error.
pub data Answer : Type 0 where
  said : Text → Answer
  challenged : Text → Answer
  tool_failed unknown_tool gate_refused : Answer

abbrev pub answer_of : Option Text → Answer
answer_of none = tool_failed
answer_of (some s) = said s

-- The state that a call reads and writes.
pub record Hands : Type 0 where
  pub store : ConfirmationStore
  pub channel : Channel

module _ {F : Type 0} (o : Outside) (j : Split.Json) (executes : Tool F → Text → Option Text) where
  -- What follows the gate; `clean` are the arguments that it leaves.
  unfoldable pub after_gate :
      Tool F → Option Text → Verdict → ConfirmationStore → Channel → Hands × Answer
  unfolding run_tool
  after_gate t clean (refuse r) s c = (record { store = s; channel = c }, gate_refused)
  after_gate t clean (challenge token) s c = (record { store = s; channel = c }, challenged token)
  after_gate t none run s c = (record { store = s; channel = c }, gate_refused)
  after_gate t (some args) run s c =
      let (c', r) = run_tool o (executes t args) c in
      (record { store = s; channel = c' }, answer_of r)

  -- The handler of a call by name, in a session, at a time, with the token that a challenge would have.
  unfoldable pub handle_call : Manager F → Text → Text → Text → ℕ → Text → Hands → Hands × Answer
  unfolding after_gate
  handle_call m session name args now new h = elim (get_tool name m) [
    | none ↦ (h, unknown_tool)
    | some t ↦
        let (s, clean, v) =
          gate_args j h.store session (spec_of t).name (spec_of t).confirmation_required args now
            new in
        after_gate t clean v s h.channel
  ]
