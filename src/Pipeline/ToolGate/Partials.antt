-- ===== src/Pipeline/ToolGate/Partials.antt =====
-- internal/pipeline/partial.go with internal/pipeline/toolgate.go: what a partial fires, and the call that the model makes after it.
use streamcore_server.Base.{
  Bool, Bool-cases, List, Map, Option, Text, [], ap, arith, if-either, if◌then◌else◌, inl, inr,
  insert, is_some, lookup, lookup-insert_self, map, refl, some, suc, sym, text_eq, true, ℕ, ◌++◌,
  ◌+◌, ◌∙◌, ◌∷◌, ◌≡◌, ◌≤◌,
}
use mathlib.Core.List.{append_assoc, append-nil}
use streamcore_server.Pipeline.Reflex.Dedup.Latest.{known_lem}
use streamcore_server.Pipeline.Reflex.Dedup.{
  Emission, reflex_already_sent, remember_reflex_emission, drop_records, key, reflex_dedup_ttl,
}
use streamcore_server.Plugin.Manifest.{ToolSpec}
use streamcore_server.Plugin.Dispatch.{Value}
use streamcore_server.Plugin.Result.{parse_result}
use streamcore_server.Plugin.Manager.{
  Tool, Manager, dispatching, spec_of, partial_tools, listening, listens, call_tool,
  needs_confirmation, lookup_tool,
}
use streamcore_server.Plugin.Manager.Reach.{Holds}
use streamcore_server.Pipeline.ToolGate.{
  Channel, Outside, packet_of, emit_unless_sent, emit_each, run_tool, fire_answer, fire_reflex,
  fire_each, fire_emission, unless_failed, spoken,
}
use streamcore_server.Pipeline.ToolGate.Emissions.{emit_sent, emit_failed}

module _ (o : Outside) where
  -- The emissions whose attempts succeed, from the number of the first attempt on.
  abbrev pub delivered : ℕ → List Emission → List Emission
  delivered n [] = []
  delivered n (e ∷ es) = if o.writes n then e ∷ delivered (suc n) es else delivered (suc n) es

  fire_emission_lem :
      (i : ℕ) (e : Emission) (c : Channel)
      → ((fire_emission o i e c).wire
          ≡ c.wire ++ map (packet_of o) (if o.writes c.attempts then e ∷ [] else []))
        × ((fire_emission o i e c).attempts ≡ suc c.attempts)
  unfolding fire_emission
  fire_emission_lem i e c = elim (Bool-cases (o.writes c.attempts)) [
    | inl w ↦ let q = emit_sent o e c w in rw (fire_emission, q, w) (refl, refl)
    | inr w ↦
        let q = emit_failed o e c w in rw (fire_emission, q, w) (sym (append-nil c.wire), refl)
  ]

  -- What a partial fires goes out, but for the packets whose sending fails: the others still go out.
  pub fire_each_delivers :
      (i : ℕ) (es : List Emission) (c : Channel)
      → (fire_each o i es c).wire ≡ c.wire ++ map (packet_of o) (delivered c.attempts es)
  unfolding fire_each
  fire_each_delivers i [] c = sym (append-nil c.wire)
  fire_each_delivers i (e ∷ es) c =
      let (w, a) = fire_emission_lem i e c in
      let h = fire_each_delivers (suc i) es (fire_emission o i e c) in
      h
      ∙ rw (a, w)
          (elim (Bool-cases (o.writes c.attempts)) [
            | inl b ↦ rw b (
                append_assoc c.wire (packet_of o e ∷ [])
                  (map (packet_of o) (delivered (suc c.attempts) es)))
            | inr b ↦ rw b (
                ap (λ l. l ++ map (packet_of o) (delivered (suc c.attempts) es))
                  (append-nil c.wire))
          ])

  -- The channel after one packet of a partial.
  abbrev fired : Emission → Channel → Channel
  fired e c = record {
    reflex_sent = remember_reflex_emission c.reflex_sent e (o.clock 0);
    wire = c.wire ++ (packet_of o e ∷ []);
    attempts = suc c.attempts;
  }

  fire_one :
      (raw : Text) (e : Emission) (c : Channel)
      → (parse_result o.results raw).emit ≡ e ∷ []
      → o.writes c.attempts ≡ true
      → fire_answer o (some raw) c ≡ fired e c
  unfolding fire_answer fire_each fire_emission
  fire_one raw e c p w = rw (fire_answer, p) (rw (fire_emission, emit_sent o e c w) refl)

  remembered :
      (sent : Map ℕ) (e : Emission) (now later : ℕ)
      → later ≤ now + reflex_dedup_ttl
      → (reflex_already_sent (remember_reflex_emission sent e now) e later).1 ≡ true
  unfolding remember_reflex_emission
  remembered sent e now later le =
      let rest = drop_records now (e.topic ++ (0 ∷ [])) sent in
      let m = insert (key e) now rest in
      ap (λ (x : Map ℕ × Bool). x.1)
        (known_lem m e now later (lookup-insert_self (key e) now rest) (ground (arith, le)))

  -- The same world when the clock shows another time.
  abbrev pub at_time : ℕ → Outside
  at_time t = record o { clock = λ i. t }

  suppressed :
      (later : ℕ) (raw : Text) (e : Emission) (c : Channel)
      → (parse_result o.results raw).emit ≡ e ∷ []
      → (reflex_already_sent c.reflex_sent e later).1 ≡ true
      → run_tool (at_time later) (some raw) c ≡ (
        record c { reflex_sent = (reflex_already_sent c.reflex_sent e later).0 },
        some (parse_result o.results raw).speak,
      )
  unfolding run_tool emit_each
  suppressed later raw e c p k =
      let es = (parse_result o.results raw).emit in
      let one : emit_unless_sent (at_time later) 0 e c
          ≡ (record c { reflex_sent = (reflex_already_sent c.reflex_sent e later).0 }, true) =
        rw (k, emit_unless_sent) refl in
      ap
        (λ (l : List Emission).
          spoken o (parse_result o.results raw).speak (emit_each (at_time later) 0 l c))
        p
      ∙ ap
          (λ r.
            spoken o (parse_result o.results raw).speak
              (unless_failed (emit_each (at_time later) 1 []) r))
          one

  -- A partial fires a tool whose answer has one packet, and sends it. If the next thing that the channel sees is a call of that
  -- tool by the model, whose arguments lead to the same answer, within ten seconds of the packet, then the client has got the
  -- packet once, and the model gets the text of the answer. Another packet on the topic in between is not covered.
  pub fire_reflex-run_tool :
      {F : Type 0} (executes : Tool F → Text → Option Text) (t : Tool F) (hit args raw : Text)
      (e : Emission) (c : Channel) (later : ℕ)
      → executes t hit ≡ some raw
      → executes t args ≡ some raw
      → (parse_result o.results raw).emit ≡ e ∷ []
      → o.writes c.attempts ≡ true
      → later ≤ o.clock 0 + reflex_dedup_ttl
      → let (c', answer) =
          run_tool (at_time later) (executes t args) (fire_reflex o executes t hit c) in
        (c'.wire ≡ c.wire ++ (packet_of o e ∷ []))
        × (answer ≡ some (parse_result o.results raw).speak)
  unfolding fire_reflex
  fire_reflex-run_tool executes t hit args raw e c later h a p w le =
      let k = remembered c.reflex_sent e (o.clock 0) later le in
      let q = suppressed later raw e (fired e c) p k in
      rw (h, a) (rw (fire_one raw e c p w, q) (refl, refl))

module _ {F : Type 0} where
  Holds-listening :
      (name : Text) (m : Map (Tool F)) (t : Tool F)
      → lookup name m ≡ some t
      → listens t ≡ true
      → Holds t (listening m)
  unfolding listening lookup
  Holds-listening name [] t e n = cc
  Holds-listening name ((k, x) ∷ m) t e n = elim (Bool-cases (text_eq k name)) [
    | inl q ↦
        let p : x ≡ t = ground (arith, q) in
        let b : listens x ≡ true = ap listens p ∙ n in rw (b, listening) (inl p)
    | inr q ↦
        let h = Holds-listening name m t (ground (arith, q)) n in
        if-either (Holds t) (listens x) (inr h) h
  ]

  -- A packet tool that asks for a confirmation and listens to partials is one that the partials fire, though another plugin may
  -- not call it; and when a hit fires it, the packet of what it answers to the hit's arguments goes out, whatever
  -- confirmations are pending.
  pub partial_skips_gate :
      (o : Outside) (executes : Tool F → Text → Option Text) (m : Manager F)
      (s : ToolSpec (Value F)) (hit args raw : Text) (e : Emission) (c : Channel)
      → lookup_tool s.name m ≡ some (dispatching s)
      → s.confirmation_required ≡ true
      → is_some s.on_partial ≡ true
      → executes (dispatching s) hit ≡ some raw
      → (parse_result o.results raw).emit ≡ e ∷ []
      → o.writes c.attempts ≡ true
      → Holds (dispatching s) (partial_tools m)
        × (call_tool s.name args m ≡ needs_confirmation)
        × ((fire_reflex o executes (dispatching s) hit c).wire ≡ c.wire ++ (packet_of o e ∷ []))
  unfolding partial_tools lookup_tool listens call_tool spec_of fire_reflex
  partial_skips_gate o executes m s hit args raw e c l g p x q w = (
    Holds-listening s.name m.tools (dispatching s) l p,
    rw (l, call_tool) (rw g refl),
    rw x (ap (λ (y : Channel). y.wire) (fire_one o raw e c q w)),
  )
