-- ===== src/Examples/Tools.antt =====
-- A robot's plugin: a packet tool that listens to partials and asks for a confirmation, in a manager, called by the model and
-- fired by a partial.
use streamcore_server.Base.{
  Distinct, Map, Option, Text, [], ap, arith, codes, false, inl, insert, length, lookup, ltb, none,
  refl, some, subst, suc, sweep, text_eq, true, ℕ, ◌++◌, ◌==◌, ◌↔◌, ◌∷◌, ◌≡◌, ◌≢◌, zero,
}
use streamcore_server.Plugin.Manifest.{
  PartialSpec, DispatchSpec, ToolSpec, Manifest, Overrides, validate, is_enabled, CaptureSpec,
  SpeakRule, Invalid, no_topic, partial_without_dispatch,
}
use streamcore_server.Plugin.Manifest.Accepts.{Acceptable, validate_accepts}
use streamcore_server.Plugin.Dispatch.{
  Value, string, int, json_number, Floats, Property, Schema, Json, packet_fields, parameters,
  clamp_value, to_float, bound,
}
use streamcore_server.Plugin.Dispatch.Packet.{lookup-packet_fields, under_schema, unless_zero}
use streamcore_server.Plugin.Dispatch.Packet as Packet
use streamcore_server.Plugin.Dispatch.Bounds.{clamp_value_bounds, AtLeast, AtMost}
use streamcore_server.Plugin.Result.{ResultJson, parse_result}
use streamcore_server.Plugin.Manager.{
  Tool, dispatching, new_manager, load, get_tool, tools_of, partial_tools, call_tool, lookup_tool,
  needs_confirmation, spec_of,
}
use streamcore_server.Plugin.Manager.Registry.{
  IsOrderly, Reach, Reach-IsOrderly, loads, start, more,
}
use streamcore_server.Plugin.Manager.Reach.{Holds, get_tool-tools_of}
use streamcore_server.Plugin.Manager.Replaced.{last_spec}
use streamcore_server.Plugin.Manager.Loading.{load_dispatch}
use streamcore_server.Plugin.Confirm.{ConfirmationStore, new_confirmation_store}
use streamcore_server.Plugin.Confirm.Split as Split
use streamcore_server.Pipeline.Reflex.Dedup.{Emission}
use streamcore_server.Pipeline.ToolGate.{
  Channel, Outside, Hands, run_tool, fire_reflex, packet_of, handle_call,
}
use streamcore_server.Pipeline.ToolGate.Emissions.{Settled, run_tool-Settled}
use streamcore_server.Pipeline.ToolGate.Handler.{MayRun, handle_call_guards}
use streamcore_server.Pipeline.ToolGate.Partials.{at_time, fire_reflex-run_tool, partial_skips_gate}

-- Numbers that are their own text, as one code point.
abbrev digit : Text → Option ℕ
digit [] = none
digit (c ∷ s) = some c

abbrev floats : Floats ℕ
floats = record {
  parse = digit;
  of_int = λ sign n. n;
  to_int = λ n. (true, n);
  lt = ltb;
  eq = λ a b. a == b;
  zero = 0;
  sprint = λ v. [];
}

abbrev walk : DispatchSpec (Value ℕ)
walk = record {
  topic = codes "movement";
  payload = (codes "kind", string (codes "walk")) ∷ [];
  speak = codes "walking";
  omit_zero = true;
  speak_when = [];
}

abbrev on_walk : PartialSpec
on_walk = record {
  matches = codes "walk" ∷ [];
  starts_with = [];
  once_per_turn = true;
  capture = none;
  settle_ms = 0;
}

abbrev move : ToolSpec (Value ℕ)
move = record {
  name = codes "move";
  description = [];
  parameters_raw = none;
  confirmation_required = true;
  thinking_sound = false;
  requires = [];
  internal = false;
  confirmation_prompt = [];
  dispatch = some walk;
  on_partial = some on_walk;
}

abbrev robot : Manifest (Value ℕ)
robot = record {
  name = codes "robot";
  description = [];
  parameters_raw = none;
  confirmation_required = false;
  thinking_sound = false;
  requires = [];
  dispatch = none;
  tools = move ∷ [];
  enabled = none;
  language = [];
  entrypoint = [];
  exec = [];
  timeout_ms = 0;
  events = [];
  config = [];
}

robot_fits : validate robot ≡ none
unfolding validate streamcore_server.Strings.trim_space streamcore_server.Strings.member
    streamcore_server.Plugin.Manifest.validate_partial
robot_fits = refl

topicless :
    validate (record robot {
      tools = record move { dispatch = some (record walk { topic = codes " " }) } ∷ [];
    })
    ≡ some (no_topic (codes "move"))
unfolding validate streamcore_server.Strings.trim_space streamcore_server.Strings.member
topicless = refl

unsent :
    validate (record robot { tools = record move { dispatch = none } ∷ [] })
    ≡ some (partial_without_dispatch (codes "move"))
unfolding validate streamcore_server.Strings.trim_space streamcore_server.Strings.member
    streamcore_server.Plugin.Manifest.validate_partial
unsent = refl

validate_accepts_example : (validate robot ≡ none) ↔ Acceptable robot
validate_accepts_example = validate_accepts robot

abbrev no_overrides : Text → Overrides
no_overrides s = record { enabled = none; timeout_ms = none }

load_dispatch_example :
    ((load no_overrides robot none new_manager).1 ≡ none)
    × ((k : Text)
        → lookup k (load no_overrides robot none new_manager).0.tools
          ≡ Packet.over
              (last_spec dispatching k (move ∷ []))
              (lookup k (new_manager {F = ℕ}).tools))
unfolding validate streamcore_server.Strings.trim_space streamcore_server.Strings.member
    streamcore_server.Plugin.Manifest.validate_partial is_enabled lookup new_manager
load_dispatch_example = load_dispatch no_overrides robot none new_manager refl refl refl

robot_reached : Reach (load no_overrides robot none (new_manager {F = ℕ})).0
robot_reached = more new_manager _ start (loads new_manager no_overrides robot none)

Reach-IsOrderly_example : IsOrderly (load no_overrides robot none (new_manager {F = ℕ})).0
Reach-IsOrderly_example = Reach-IsOrderly robot_reached

get_tool-tools_of_example :
    let m = (load no_overrides robot none (new_manager {F = ℕ})).0 in
    ((get_tool (codes "move") m ≡ some (dispatching move))
      ↔ (Holds (dispatching move) (tools_of m) × (move.name ≡ codes "move")))
    × (Holds (dispatching move) (tools_of m)
        ↔ ((lookup_tool move.name m ≡ some (dispatching move)) × (move.internal ≡ false)))
unfolding spec_of
get_tool-tools_of_example =
    get_tool-tools_of (load no_overrides robot none new_manager).0 (codes "move") (dispatching move)
      robot_reached

-- A schema with one bounded property, whatever the text.
abbrev steps : Property
steps = record { kind = codes "number"; minimum = some (1 ∷ []); maximum = some (9 ∷ []) }

abbrev schema : Schema
schema = record { additional_properties = none; properties = (codes "steps", steps) ∷ [] }

abbrev json : Json ℕ
json = record {
  decode_fields = λ s. some (some []);
  encode_fields = λ m. some (codes "{}");
  encode_value = λ v. none;
  decode_schema = λ s. some schema;
}

abbrev arguments : Map (Value ℕ)
arguments =
    (codes "steps", json_number (20 ∷ []))
    ∷ (codes "speed", json_number (5 ∷ []))
    ∷ (codes "kind", string (codes "run"))
    ∷ []

steps_clamped :
    lookup (codes "steps") (packet_fields floats json move walk arguments) ≡ some (Value.float 9)
unfolding lookup packet_fields insert sweep text_eq streamcore_server.Plugin.Dispatch.is_zero
    to_float
steps_clamped = refl

speed_dropped : lookup (codes "speed") (packet_fields floats json move walk arguments) ≡ none
unfolding lookup packet_fields insert sweep text_eq streamcore_server.Plugin.Dispatch.is_zero
    to_float
speed_dropped = refl

kind_constant :
    lookup (codes "kind") (packet_fields floats json move walk arguments)
    ≡ some (string (codes "walk"))
unfolding lookup packet_fields insert sweep text_eq streamcore_server.Plugin.Dispatch.is_zero
    to_float
kind_constant = refl

one_property :
    (s : Schema) → json.decode_schema (parameters json move) ≡ some s → Distinct s.properties
unfolding lookup
one_property s e =
    let q : schema ≡ s = ground arith in subst (λ (x : Schema). Distinct x.properties) q (refl, tt)

arguments-Distinct : Distinct arguments
unfolding lookup text_eq
arguments-Distinct = (refl, (refl, (refl, tt)))

lookup-packet_fields_example :
    lookup (codes "steps") (packet_fields floats json move walk arguments)
    ≡ Packet.over (lookup (codes "steps") walk.payload) (
        unless_zero floats walk.omit_zero (
          under_schema floats
            (json.decode_schema (parameters json move))
            (codes "steps")
            (lookup (codes "steps") arguments)))
unfolding lookup
lookup-packet_fields_example =
    lookup-packet_fields floats json move walk arguments arguments-Distinct (refl, tt) one_property
      (codes "steps")

ltb_irreflexive : (x : ℕ) → ltb x x ≡ false
ltb_irreflexive x = ground arith

ltb_antisymmetric : (x y : ℕ) → ltb x y ≡ true → ltb y x ≡ false
ltb_antisymmetric x y h = ground arith

same_self : (x : ℕ) → (x == x) ≡ true
same_self x = ground arith

same_order : (x y : ℕ) → (x == y) ≡ true → (z : ℕ) → (ltb x z ≡ ltb y z) × (ltb z x ≡ ltb z y)
same_order x y h z = (ground arith, ground arith)

clamp_value_bounds_example :
    (y : ℕ) × (to_float floats (clamp_value floats steps (json_number (20 ∷ []))) ≡ some y)
    × AtLeast floats (bound floats steps.minimum) y
    × AtMost floats (bound floats steps.maximum) y
unfolding bound text_eq to_float
clamp_value_bounds_example =
    clamp_value_bounds floats ltb_irreflexive ltb_antisymmetric same_self same_order steps
      (json_number (20 ∷ [])) 20 refl (inl refl) (inl refl) refl

-- A result that has one packet, whatever the text.
abbrev walked : Emission
walked = record { topic = codes "movement"; payload = codes "{}" }

abbrev results : ResultJson
results = record {
  keys = λ s. some (codes "emit" ∷ []);
  decode = λ s. some (record { speak = codes "walking"; emit = walked ∷ [] });
  encode = λ r. none;
}

abbrev outside : Outside
outside = record { writes = λ n. true; clock = λ i. 0; base64 = λ s. s; results = results }

abbrev quiet : Channel
quiet = record { reflex_sent = []; wire = []; attempts = 0 }

run_tool-Settled_example :
    Settled outside (some (codes "x")) quiet (run_tool outside (some (codes "x")) quiet)
run_tool-Settled_example = run_tool-Settled outside (some (codes "x")) quiet

-- Whatever its arguments, the tool answers x.
abbrev answers_x : Tool ℕ → Text → Option Text
answers_x t args = some (codes "x")

fire_reflex-run_tool_example :
    let (c, answer) =
      run_tool
        (at_time outside 5)
        (answers_x (dispatching move) (codes "{}"))
        (fire_reflex outside answers_x (dispatching move) (codes "{}") quiet) in
    (c.wire ≡ [] ++ (packet_of outside walked ∷ []))
    × (answer ≡ some (parse_result results (codes "x")).speak)
unfolding parse_result streamcore_server.Strings.member text_eq
fire_reflex-run_tool_example =
    fire_reflex-run_tool outside answers_x (dispatching move) (codes "{}") (codes "{}") (codes "x")
      walked quiet 5 refl refl refl refl (omega arith)

partial_skips_gate_example :
    let m = (load no_overrides robot none (new_manager {F = ℕ})).0 in
    Holds (dispatching move) (partial_tools m)
    × (call_tool (codes "move") (codes "{}") m ≡ needs_confirmation)
    × ((fire_reflex outside answers_x (dispatching move) (codes "{}") quiet).wire
        ≡ [] ++ (packet_of outside walked ∷ []))
unfolding lookup_tool lookup load streamcore_server.Strings.trim_space
    streamcore_server.Strings.member streamcore_server.Plugin.Manifest.validate_partial new_manager
    insert text_eq parse_result
partial_skips_gate_example =
    partial_skips_gate outside answers_x (load no_overrides robot none new_manager).0 move
      (codes "{}") (codes "{}") (codes "x") walked quiet refl refl refl refl refl refl

-- The same tool without the confirmation.
abbrev free_move : ToolSpec (Value ℕ)
free_move = record move { confirmation_required = false }

abbrev free_robot : Manifest (Value ℕ)
free_robot = record robot { tools = free_move ∷ [] }

nothing_printed : (m : Map Text) (b : Text) → none ≡ some b → none ≡ some m
nothing_printed m b e = cc

abbrev confirm_json : Split.Json
confirm_json = record {
  object = λ s. none;
  print = λ m. none;
  text = λ s. none;
  canonical = λ s. none;
  digest = λ s. s;
  object-print = nothing_printed;
}

abbrev hands : Hands
hands = record { store = record { pending = []; ttl = 1 }; channel = quiet }

abbrev runs_all : Tool ℕ → Text → Option Text
runs_all t s = some s

channel_changes :
    (handle_call outside confirm_json runs_all
      (load no_overrides free_robot none (new_manager {F = ℕ})).0
      (codes "s")
      (codes "move")
      (codes "{}")
      7
      (codes "t")
      hands).0.channel
    ≢ quiet
unfolding handle_call get_tool lookup load streamcore_server.Strings.trim_space
    streamcore_server.Strings.member streamcore_server.Plugin.Manifest.validate_partial new_manager
    insert text_eq Split.gate_args Split.split_confirm_token streamcore_server.Plugin.Confirm.gate
    parse_result streamcore_server.Pipeline.Reflex.Dedup.reflex_already_sent
channel_changes e =
    let q : suc zero ≡ zero = ap (λ (c : Channel). length c.wire) e in absurd (omega arith)

handle_call_guards_example :
    (t : Tool ℕ) × (get_tool
        (codes "move")
        (load no_overrides free_robot none (new_manager {F = ℕ})).0
      ≡ some t)
    × MayRun outside confirm_json runs_all hands.store t (codes "s") (codes "{}") 7
handle_call_guards_example =
    handle_call_guards outside confirm_json runs_all
      (load no_overrides free_robot none new_manager).0 (codes "s") (codes "move") (codes "{}") 7
      (codes "t") hands tt channel_changes
