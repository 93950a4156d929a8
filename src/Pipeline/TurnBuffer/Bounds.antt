-- ===== src/Pipeline/TurnBuffer/Bounds.antt =====
-- internal/pipeline/turnbuffer.go: what is in the buffer, and for how long.
use streamcore_server.Base.{
  Bool, Bool-cases, Option-cases, Text, arith, false, inl, inr, is_empty, none, refl, some, ℕ, ◌++◌,
  ◌+◌, ◌-◌, ◌/◌, ◌||◌, ◌∷◌, ◌≡◌, ◌≤◌, ◌⊎◌,
}
use streamcore_server.Strings.{Unicode, trim_space}
use streamcore_server.Pipeline.TurnBuffer.{
  Buffer, Event, new_buffer, turn_merge_max, flush, merge, on_final, hold, arm,
}
use streamcore_server.Pipeline.TurnBuffer

-- The buffer at a time: finals come and the timer ends, at times that never go back.
pub data Reach (u : Unicode) (prefetch : Bool) (base : ℕ) : ℕ → Buffer → Type 0 where
  begin_at : (t : ℕ) → Reach u prefetch base t new_buffer
  final_at :
      {t : ℕ} {b : Buffer}
      → Reach u prefetch base t b
      → (e : Event) (now : ℕ) → t ≤ now
      → Reach u prefetch base now (on_final u prefetch base b e now).0
  timeout_at :
      {t : ℕ} {b : Buffer}
      → Reach u prefetch base t b
      → (now : ℕ) → t ≤ now
      → Reach u prefetch base now (flush b now).0

-- A turn is pending exactly if the timer is armed, for a time within the bound.
pub record Held (t : ℕ) (b : Buffer) : Type 0 where
  pub began : b.turn_began ≤ t
  pub idle : b.pending ≡ none → b.deadline ≡ none
  pub armed :
      (e : Event)
      → b.pending ≡ some e
      → (d : ℕ) × (b.deadline ≡ some d) × (d ≤ b.turn_began + turn_merge_max)

flush-Held : (t now : ℕ) (b : Buffer) → t ≤ now → Held t b → Held now (flush b now).0
unfolding flush
flush-Held t now b le h = elim (Option-cases b.pending) [
  | inl e ↦
      rw (e, flush) (record { began = omega (arith, h.began); idle = h.idle; armed = h.armed })
  | inr (p, e) ↦
      rw (e, flush)
        (record {
          began = omega (arith, h.began);
          idle = λ _. refl;
          armed = λ e' f. absurd (ground arith);
        })
]

hold_bounds :
    (u : Unicode) (b : Buffer) (m : Event) (base now wait : ℕ)
    → b.turn_began ≤ now
    → hold u b m base now ≡ some wait
    → now + wait ≤ b.turn_began + turn_merge_max
unfolding hold
hold_bounds u b m base now wait le e = ground arith

merge_lem :
    (b : Buffer) (e : Event) (text : Text) (now t : ℕ)
    → t ≤ now
    → b.turn_began ≤ t
    → ((merge b e text now).0.turn_began ≤ now)
      × ((merge b e text now).0.pending ≡ some (merge b e text now).1)
unfolding merge
merge_lem b e text now t le h = ground arith

flush_pending :
    (b : Buffer) (m : Event) (now : ℕ)
    → b.turn_began ≤ now
    → b.pending ≡ some m
    → Held now (flush b now).0
unfolding flush
flush_pending b m now le e =
    rw (e, flush) (record { began = le; idle = λ _. refl; armed = λ e' f. absurd (ground arith) })

on_final-Held :
    (u : Unicode) (prefetch : Bool) (base t now : ℕ) (b : Buffer) (e : Event)
    → t ≤ now
    → Held t b
    → Held now (on_final u prefetch base b e now).0
unfolding on_final arm
on_final-Held u prefetch base t now b e le h =
    let text = trim_space e.text in
    let (b', m) = merge b e text now in
    let (began, pends) = merge_lem b e text now t le h.began in
    elim (Bool-cases (is_empty text)) [
      | inl x ↦
          rw (x, on_final)
            (record { began = omega (arith, h.began); idle = h.idle; armed = h.armed })
      | inr x ↦ elim (Option-cases (hold u b' m base now)) [
        | inl f ↦ rw (x, on_final) (rw f (flush_pending b' m now began pends))
        | inr (wait, f) ↦
            rw (x, on_final)
              (rw f (record {
                began = began;
                idle = λ g. absurd (ground arith);
                armed = λ e' g. (now + wait, refl, hold_bounds u b' m base now wait began f);
              }))
      ]
    ]

-- Over any course of a call: a turn is pending exactly if the timer is armed, and then it ends no
-- later than 2.5 seconds after the turn began, however many finals are merged into it.
pub Reach-Held :
    (u : Unicode) (prefetch : Bool) (base : ℕ) {t : ℕ} {b : Buffer}
    → Reach u prefetch base t b
    → Held t b
Reach-Held u prefetch base (begin_at t) = record {
  began = omega arith;
  idle = λ _. refl;
  armed = λ e f. absurd (ground arith);
}
Reach-Held u prefetch base (final_at {t = t} {b = c} r e now le) =
    on_final-Held u prefetch base t now c e le (Reach-Held u prefetch base r)
Reach-Held u prefetch base (timeout_at {t = t} {b = c} r now le) =
    flush-Held t now c le (Reach-Held u prefetch base r)

flushed :
    (b : Buffer) (m : Event) (now : ℕ)
    → b.pending ≡ some m
    → ((flush b now).0.pending ≡ none)
      × ((wait : ℕ) × ((flush b now).1 ≡ some (record m { merge_wait_ms = wait })))
unfolding flush
flushed b m now e = rw (e, flush) (refl, ((now - b.turn_began) / TurnBuffer.ms, refl))

merged :
    (b : Buffer) (e : Event) (text : Text) (now : ℕ) (p : Event)
    → b.pending ≡ some p
    → let m = (merge b e text now).1 in
      (m.turn_start ≡ p.turn_start)
      × (m.text ≡ trim_space (p.text ++ (b' ' ∷ text)))
      × (m.over_agent_speech ≡ (p.over_agent_speech || e.over_agent_speech))
unfolding merge
merged b e text now p f = rw (f, merge) (refl, refl, refl)

merge-pending :
    (b : Buffer) (e : Event) (text : Text) (now : ℕ)
    → (merge b e text now).0.pending ≡ some (merge b e text now).1
unfolding merge
merge-pending b e text now = ground arith

-- A final with words in it is not lost: it either stays pending or goes out at once, merged with
-- what was pending. The turn keeps the earliest start, and it counts as spoken over the agent if any
-- part of it was.
pub on_final_keeps :
    (u : Unicode) (prefetch : Bool) (base now : ℕ) (b : Buffer) (e : Event)
    → is_empty (trim_space e.text) ≡ false
    → let (q, out, _) = on_final u prefetch base b e now in
      let m = (merge b e (trim_space e.text) now).1 in
      (((q.pending ≡ some m) × (out ≡ none))
        ⊎ ((q.pending ≡ none) × ((wait : ℕ) × (out ≡ some (record m { merge_wait_ms = wait })))))
      × ((p : Event)
          → b.pending ≡ some p
          → (m.turn_start ≡ p.turn_start)
            × (m.text ≡ trim_space (p.text ++ (b' ' ∷ trim_space e.text)))
            × (m.over_agent_speech ≡ (p.over_agent_speech || e.over_agent_speech)))
unfolding on_final arm
on_final_keeps u prefetch base now b e x =
    let text = trim_space e.text in
    let (b', m) = merge b e text now in
    let pends = merge-pending b e text now in
    (
      elim (Option-cases (hold u b' m base now)) [
        | inl f ↦ rw (x, on_final) (rw f (inr (flushed b' m now pends)))
        | inr (wait, f) ↦ rw (x, on_final) (rw f (inl (pends, refl)))
      ],
      λ p f. merged b e text now p f,
    )
