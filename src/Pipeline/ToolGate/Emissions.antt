-- ===== src/Pipeline/ToolGate/Emissions.antt =====
-- internal/pipeline/toolgate.go: the packets of a call that went out, against what its result asked for.
use streamcore_server.Base.{
  Bool, Bool-cases, List, Map, Option, Text, [], ap, arith, false, if◌then◌else◌, inl, inr, length,
  map, none, refl, some, subst, suc, sym, take, true, ℕ, ◌++◌, ◌+◌, ◌<◌, ◌∙◌, ◌∷◌, ◌≡◌, ◌⊎◌,
}
use mathlib.Core.List.{append_assoc, append-nil}
use streamcore_server.Pipeline.Reflex.Dedup.{Emission, reflex_already_sent}
use streamcore_server.Plugin.Result.{parse_result}
use streamcore_server.Pipeline.ToolGate.{
  Channel, Outside, packet_of, emit, emit_unless_sent, emit_each, run_tool, spoken, unless_failed,
}

module _ (o : Outside) where
  -- The emissions that no partial has sent, as they are looked up one after the other.
  abbrev pub fresh : ℕ → List Emission → Map ℕ → List Emission
  fresh i [] sent = []
  fresh i (e ∷ es) sent =
      let rest = fresh (suc i) es (reflex_already_sent sent e (o.clock i)).0 in
      if (reflex_already_sent sent e (o.clock i)).1 then rest else e ∷ rest

  -- All of them went out in order; or those before one whose attempt failed did, and the call failed.
  abbrev pub Accounted : List Emission → Channel → Channel → Bool → Type 0
  Accounted es c c' ok =
      ((ok ≡ true) × (c'.wire ≡ c.wire ++ map (packet_of o) es))
      ⊎ ((ok ≡ false)
          × (n : ℕ) × (n < length es)
          × (c'.wire ≡ c.wire ++ map (packet_of o) (take n es))
          × (o.writes (c.attempts + n) ≡ false))

  pub emit_sent :
      (e : Emission) (c : Channel)
      → o.writes c.attempts ≡ true
      → emit o e c
        ≡ (record c { attempts = suc c.attempts; wire = c.wire ++ (packet_of o e ∷ []) }, true)
  unfolding emit
  emit_sent e c w = rw (w, emit) refl

  pub emit_failed :
      (e : Emission) (c : Channel)
      → o.writes c.attempts ≡ false
      → emit o e c ≡ (record c { attempts = suc c.attempts }, false)
  unfolding emit
  emit_failed e c w = rw (w, emit) refl

  -- The channel with the records as a lookup leaves them.
  abbrev looked_up : ℕ → Emission → Channel → Channel
  looked_up i e c = record c { reflex_sent = (reflex_already_sent c.reflex_sent e (o.clock i)).0 }

  -- One packet before those that are accounted for.
  one_more :
      (e : Emission) (es : List Emission) (c c' c'' : Channel) (ok : Bool)
      → c'.wire ≡ c.wire ++ (packet_of o e ∷ [])
      → c'.attempts ≡ suc c.attempts
      → Accounted es c' c'' ok
      → Accounted (e ∷ es) c c'' ok
  one_more e es c c' c'' ok w a (inl (t, q)) =
      inl (t, q ∙ rw w (append_assoc c.wire (packet_of o e ∷ []) (map (packet_of o) es)))
  one_more e es c c' c'' ok w a (inr (t, n, l, q, x)) = inr (
    t,
    suc n,
    omega arith,
    q ∙ rw w (append_assoc c.wire (packet_of o e ∷ []) (map (packet_of o) (take n es))),
    subst (λ (y : ℕ). o.writes y ≡ false) (omega (arith, a)) x,
  )

  round_known :
      (i : ℕ) (e : Emission) (c : Channel)
      → (reflex_already_sent c.reflex_sent e (o.clock i)).1 ≡ true
      → emit_unless_sent o i e c ≡ (looked_up i e c, true)
  unfolding emit_unless_sent
  round_known i e c k = rw (k, emit_unless_sent) refl

  round_fresh :
      (i : ℕ) (e : Emission) (c : Channel)
      → (reflex_already_sent c.reflex_sent e (o.clock i)).1 ≡ false
      → emit_unless_sent o i e c ≡ emit o e (looked_up i e c)
  unfolding emit_unless_sent
  round_fresh i e c k = rw (k, emit_unless_sent) refl

  go_on :
      (i : ℕ) (e : Emission) (es : List Emission) (c c' : Channel)
      → emit_unless_sent o i e c ≡ (c', true)
      → emit_each o i (e ∷ es) c ≡ emit_each o (suc i) es c'
  unfolding emit_each
  go_on i e es c c' q = ap (unless_failed (emit_each o (suc i) es)) q

  give_up :
      (i : ℕ) (e : Emission) (es : List Emission) (c c' : Channel)
      → emit_unless_sent o i e c ≡ (c', false)
      → emit_each o i (e ∷ es) c ≡ (c', false)
  unfolding emit_each
  give_up i e es c c' q = ap (unless_failed (emit_each o (suc i) es)) q

  abbrev Report : ℕ → List Emission → Channel → Channel × Bool → Type 0
  Report i es c r = Accounted (fresh i es c.reflex_sent) c r.0 r.1

  fresh_known :
      (i : ℕ) (e : Emission) (es : List Emission) (c : Channel)
      → (reflex_already_sent c.reflex_sent e (o.clock i)).1 ≡ true
      → fresh i (e ∷ es) c.reflex_sent ≡ fresh (suc i) es (looked_up i e c).reflex_sent
  fresh_known i e es c k = rw k refl

  fresh_new :
      (i : ℕ) (e : Emission) (es : List Emission) (c : Channel)
      → (reflex_already_sent c.reflex_sent e (o.clock i)).1 ≡ false
      → fresh i (e ∷ es) c.reflex_sent ≡ e ∷ fresh (suc i) es (looked_up i e c).reflex_sent
  fresh_new i e es c k = rw k refl

  -- The channel after a packet.
  abbrev after : ℕ → Emission → Channel → Channel
  after i e c = record (looked_up i e c) {
    attempts = suc c.attempts;
    wire = c.wire ++ (packet_of o e ∷ []);
  }

  emit_each-Accounted :
      (i : ℕ) (es : List Emission) (c : Channel) → Report i es c (emit_each o i es c)
  unfolding emit_each
  emit_each-Accounted i [] c = inl (refl, sym (append-nil c.wire))
  emit_each-Accounted i (e ∷ es) c =
      elim (Bool-cases (reflex_already_sent c.reflex_sent e (o.clock i)).1) [
        | inl k ↦
            subst (Report i (e ∷ es) c)
              (sym (go_on i e es c (looked_up i e c) (round_known i e c k)))
              (subst
                (λ l.
                  Accounted l c (emit_each o (suc i) es (looked_up i e c)).0
                    (emit_each o (suc i) es (looked_up i e c)).1)
                (sym (fresh_known i e es c k)) (emit_each-Accounted (suc i) es (looked_up i e c)))
        | inr k ↦ elim (Bool-cases (o.writes c.attempts)) [
          | inr w ↦
              let q = round_fresh i e c k ∙ emit_failed e (looked_up i e c) w in
              subst (Report i (e ∷ es) c) (sym (give_up i e es c _ q)) (
                inr (
                  refl,
                  0,
                  rw (fresh_new i e es c k) (omega arith),
                  sym (append-nil c.wire),
                  subst (λ (x : ℕ). o.writes x ≡ false) (omega arith) w,
                ))
          | inl w ↦
              let q = round_fresh i e c k ∙ emit_sent e (looked_up i e c) w in
              let r = emit_each o (suc i) es (after i e c) in
              subst (Report i (e ∷ es) c) (sym (go_on i e es c (after i e c) q)) (
                subst (λ l. Accounted l c r.0 r.1) (sym (fresh_new i e es c k))
                  (one_more e (fresh (suc i) es (after i e c).reflex_sent) c (after i e c) r.0 r.1
                    refl refl (emit_each-Accounted (suc i) es (after i e c))))
        ]
      ]

  -- What the model is told, and what went out.
  abbrev pub Settled : Option Text → Channel → Channel × Option Text → Type 0
  Settled none c (c', answer) = (answer ≡ none) × (c' ≡ c)
  Settled (some text) c (c', answer) =
      let r = parse_result o.results text in
      let es = fresh 0 r.emit c.reflex_sent in
      ((answer ≡ some r.speak) × Accounted es c c' true)
      ⊎ ((answer ≡ none) × Accounted es c c' false)

  spoken_settles :
      (speak : Text) (es : List Emission) (c : Channel) (r : Channel × Bool)
      → Accounted es c r.0 r.1
      → (((spoken o speak r).1 ≡ some speak) × Accounted es c (spoken o speak r).0 true)
        ⊎ (((spoken o speak r).1 ≡ none) × Accounted es c (spoken o speak r).0 false)
  spoken_settles speak es c (c', true) a = inl (refl, a)
  spoken_settles speak es c (c', false) a = inr (refl, a)

  -- When a tool has returned, either the model gets the text of its result, and the packets that went out are
  -- exactly those of the result that no partial had sent, in order; or the call is an error, and the packets that
  -- went out are those before one whose sending failed. When the tool fails, nothing goes out and the call is an error.
  pub run_tool-Settled : (raw : Option Text) (c : Channel) → Settled raw c (run_tool o raw c)
  unfolding run_tool
  run_tool-Settled none c = (refl, refl)
  run_tool-Settled (some text) c =
      let r = parse_result o.results text in
      spoken_settles r.speak (fresh 0 r.emit c.reflex_sent) c (emit_each o 0 r.emit c)
        (emit_each-Accounted 0 r.emit c)
