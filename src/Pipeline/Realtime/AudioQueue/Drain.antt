-- ===== src/Pipeline/Realtime/AudioQueue/Drain.antt =====
-- What the outbound pump takes from the queue until it has to wait.
use streamcore_server.Base.{
  Bool, Bool-cases, List, [], ap, arith, drop, false, inl, inr, is_empty, leb, leb→le, length,
  length-append, length-drop, length-replicate, length-take, le→leb, none, refl, replicate, some,
  subst, suc, sym, take, take-append-drop, true, zero, ℕ, ◌*◌, ◌++◌, ◌-◌, ◌<◌, ◌∙◌, ◌∷◌, ◌≡◌, ◌≤◌,
}
use mathlib.Core.List.{append-nil, append_assoc}
use streamcore_server.Audio.{frame_size}
use streamcore_server.Pipeline.Realtime.AudioQueue.{
  Queue, Chunk, Outcome, next, end_response, flush_tail, padded, emits, stopped, waits,
}

-- The pump's calls of next, a bounded number of them, until one waits or the queue is closed.
abbrev pub go_on : (Queue → Queue × List Chunk) → Queue × Outcome → Queue × List Chunk
go_on more (q, emits c) = let (r, cs) = more q in (r, c ∷ cs)
go_on more (q, stopped) = (q, [])
go_on more (q, waits) = (q, [])

unfoldable pub drain : ℕ → Queue → Queue × List Chunk
drain zero q = (q, [])
drain (suc n) q = go_on (drain n) (next q)

abbrev pub samples : List Chunk → List ℕ
samples [] = []
samples (c ∷ cs) = elim (c.frame) [ none ↦ samples cs | some f ↦ f ++ samples cs ]

-- Every frame has the full size.
abbrev pub Whole : List Chunk → Type 0
Whole [] = Unit {0}
Whole (c ∷ cs) = elim (c.frame) [ none ↦ Whole cs | some f ↦ (length f ≡ frame_size) × Whole cs ]

abbrev pub marks : List Chunk → List Bool
marks [] = []
marks (c ∷ cs) = c.end_of_response ∷ marks cs

-- The chunks of one response: its samples and less than a frame of silence, in whole frames, with
-- the end marked on the last chunk alone.
pub record Response (xs : List ℕ) (cs : List Chunk) : Type 0 where
  pub silence : ℕ
  pub padding : silence < frame_size
  pub played : samples cs ≡ xs ++ replicate silence 0
  pub whole : Whole cs
  pub before : ℕ
  pub marked : marks cs ≡ replicate before false ++ (true ∷ [])

drain-emits :
    (n : ℕ) (q r : Queue) (c : Chunk)
    → next q ≡ (r, emits c)
    → drain (suc n) q ≡ ((drain n r).0, c ∷ (drain n r).1)
unfolding drain
drain-emits n q r c e = ap (go_on (drain n)) e

drain-waits : (n : ℕ) (q : Queue) → next q ≡ (q, waits) → drain n q ≡ (q, [])
unfolding drain
drain-waits zero q e = refl
drain-waits (suc n) q e = ap (go_on (drain n)) e

next_full :
    (q : Queue)
    → q.closed ≡ false
    → frame_size ≤ length q.pending
    → next q ≡ (
      record q { pending = drop frame_size q.pending },
      emits (record { frame = some (take frame_size q.pending); end_of_response = false }),
    )
unfolding next
next_full q c le = rw (c, le→leb frame_size (length q.pending) le, next) refl

next_tail :
    (q : Queue)
    → q.closed ≡ false
    → q.flush ≡ true
    → length q.pending < frame_size
    → next q ≡ flush_tail q
unfolding next
next_tail q c f lt =
    let l : leb frame_size (length q.pending) ≡ false = ground arith in rw (c, f, l, next) refl

next_idle : (q : Queue) → q.closed ≡ false → q.flush ≡ false → q.pending ≡ [] → next q ≡ (q, waits)
unfolding next
next_idle q c f e = rw (c, f, e, next) refl

drain_silent :
    (n : ℕ) (q : Queue) → q.closed ≡ false → q.flush ≡ false → q.pending ≡ [] → drain n q ≡ (q, [])
drain_silent n q c f e = drain-waits n q (next_idle q c f e)

-- The result of draining a response that ends.
abbrev Drained : Queue → Queue × List Chunk → Type 0
Drained q (r, cs) = (r ≡ record q { pending = []; flush = false }) × Response q.pending cs

Response_empty : Response [] (record { frame = none; end_of_response = true } ∷ [])
Response_empty = record {
  silence = 0;
  padding = omega arith;
  played = refl;
  whole = tt;
  before = 0;
  marked = refl;
}

Response_tail :
    (xs : List ℕ)
    → is_empty xs ≡ false
    → length xs < frame_size
    → Response xs (record { frame = some (padded xs); end_of_response = true } ∷ [])
unfolding padded
Response_tail [] e lt = absurd (cc)
Response_tail (x ∷ xs) e lt = record {
  silence = frame_size - length (x ∷ xs);
  padding = omega (arith, lt);
  played = append-nil (padded (x ∷ xs));
  whole = (
    omega (
      arith,
      lt,
      length-append (x ∷ xs) (replicate (frame_size - length (x ∷ xs)) 0),
      length-replicate {A = ℕ} (frame_size - length (x ∷ xs)) 0,
    ),
    tt,
  );
  before = 0;
  marked = refl;
}

drain_last :
    (n : ℕ) (q : Queue) (c : Chunk)
    → q.closed ≡ false
    → next q ≡ (record q { pending = []; flush = false }, emits c)
    → Response q.pending (c ∷ [])
    → Drained q (drain (suc n) q)
drain_last n q c open' e resp =
    let r = record q { pending = []; flush = false } in
    let f = ap (λ (p : Queue × List Chunk). (p.0, c ∷ p.1)) (drain_silent n r open' refl refl) in
    subst (Drained q) (sym (drain-emits n q r c e ∙ f)) (refl, resp)

is_empty_eq : (xs : List ℕ) → is_empty xs ≡ true → xs ≡ []
is_empty_eq [] e = refl
is_empty_eq (x ∷ xs) e = absurd (cc)

flush_tail-none :
    (q : Queue)
    → q.pending ≡ []
    → flush_tail q ≡ (
      record q { pending = []; flush = false },
      emits (record { frame = none; end_of_response = true }),
    )
unfolding flush_tail
flush_tail-none q e = rw (e, flush_tail) refl

flush_tail-some :
    (q : Queue)
    → is_empty q.pending ≡ false
    → flush_tail q ≡ (
      record q { pending = []; flush = false },
      emits (record { frame = some (padded q.pending); end_of_response = true }),
    )
unfolding flush_tail
flush_tail-some q e = rw (e, flush_tail) refl

drain_tail :
    (n : ℕ) (q : Queue)
    → q.closed ≡ false
    → q.flush ≡ true
    → length q.pending < frame_size
    → Drained q (drain (suc n) q)
drain_tail n q c f lt = elim (Bool-cases (is_empty q.pending)) [
  | inl e ↦
      let e' = is_empty_eq q.pending e in
      drain_last n q _ c (next_tail q c f lt ∙ flush_tail-none q e') (rw e' Response_empty)
  | inr e ↦
      drain_last n q _ c (next_tail q c f lt ∙ flush_tail-some q e) (Response_tail q.pending e lt)
]

Response-frame :
    (xs : List ℕ) (cs : List Chunk)
    → frame_size ≤ length xs
    → Response (drop frame_size xs) cs
    → Response xs (record { frame = some (take frame_size xs); end_of_response = false } ∷ cs)
Response-frame xs cs le r = record {
  silence = r.silence;
  padding = r.padding;
  played =
      ap (take frame_size xs ++◌) r.played
      ∙ (sym (append_assoc (take frame_size xs) (drop frame_size xs) (replicate r.silence 0))
          ∙ ap (λ (x : List ℕ). x ++ replicate r.silence 0) (take-append-drop frame_size xs));
  whole = (omega (arith, length-take frame_size xs), r.whole);
  before = suc r.before;
  marked = ap (false ∷◌) r.marked;
}

drain_frames :
    (n : ℕ) (q : Queue)
    → q.closed ≡ false
    → q.flush ≡ true
    → length q.pending < n * frame_size
    → Drained q (drain n q)
drain_frames zero q c f lt = absurd (omega (arith, lt))
drain_frames (suc n) q c f lt = elim (Bool-cases (leb frame_size (length q.pending))) [
  | inr e ↦ drain_tail n q c f (ground arith)
  | inl e ↦
      let le = leb→le _ _ e in
      let r = record q { pending = drop frame_size q.pending } in
      let (ends, resp) =
        drain_frames n r c f (omega (arith, lt, length-drop frame_size q.pending)) in
      subst (Drained q) (sym (drain-emits n q r _ (next_full q c le)))
        (ends, Response-frame q.pending _ le resp)
]

-- When the agent's turn ends on an open queue, the pump gets all of the buffered audio and then
-- waits, with nothing buffered: whole frames, the samples in order, less than a frame of silence
-- after them, and the end of the response marked once, on the last chunk. Any number of calls of
-- next that is more than the number of buffered samples by the frame size is enough.
pub end_response_drains :
    (q : Queue) (n : ℕ)
    → q.closed ≡ false
    → length q.pending < n * frame_size
    → let (r, cs) = drain n (end_response q) in
      (r ≡ record q { pending = []; flush = false }) × (next r ≡ (r, waits)) × Response q.pending cs
unfolding end_response
end_response_drains q n c lt =
    let (ends, resp) = drain_frames n (end_response q) c refl lt in
    (ends, subst (λ (r : Queue). next r ≡ (r, waits)) (sym ends) (next_idle _ c refl refl), resp)
