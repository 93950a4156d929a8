-- ===== src/Plugin/Host/Calls/Jam.antt =====
-- internal/plugin/external.go: the reader that waits for a call that has gone, with pendingMu held.
use streamcore_server.Base.{
  Bool-cases, List, Text, [], ap, arith, inl, inr, none, refl, some, subst, suc, sym, true, ℕ, ◌==◌,
  ◌∙◌, ◌∷◌, ◌≡◌, ◌≢◌,
}
use streamcore_server.Plugin.Host.Calls.{
  Reply, wrote, waiting, leaving, Waiter, reading, failing, done, Table, find, replace, ids_listed,
  is_free, fresh_waiter, Step, numbers, begins, drop_number, delivers, ignores, takes, cancels,
  leaves, closes, tells, finishes, restarts, Later, here, next,
}

-- The reader holds pendingMu and wants to tell a call that has chosen another outcome, and whose channel is full.
pub record Jammed (t : Table) : Type 0 where
  pub waiter : Waiter
  pub rest : List ℕ
  pub reply : Reply
  pub held : t.reader ≡ failing (waiter.id ∷ rest)
  pub there : find waiter.id t.waiters ≡ some waiter
  pub left : waiter.phase ≡ leaving
  pub full : waiter.buffer ≡ some reply

find_id : (n : ℕ) (ws : List Waiter) (w : Waiter) → find n ws ≡ some w → w.id ≡ n
unfolding find
find_id n [] w e = cc
find_id n (x ∷ ws) w e = elim (Bool-cases (x.id == n)) [
  | inl q ↦
      let p : x ≡ w = ground (arith, q) in subst (λ (y : Waiter). y.id ≡ n) p (ground (arith, q))
  | inr q ↦ find_id n ws w (ground (arith, q))
]

find_first : (w : Waiter) (ws : List Waiter) → find w.id (w ∷ ws) ≡ some w
unfolding find
find_first w ws = ground arith

replace_first :
    (v w : Waiter) (ws : List Waiter) → w.id ≡ v.id → replace v (w ∷ ws) ≡ v ∷ replace v ws
unfolding replace
replace_first v w ws e = ground arith

find-replace :
    (n : ℕ) (v : Waiter) (ws : List Waiter) → n ≢ v.id → find n (replace v ws) ≡ find n ws
unfolding find replace
find-replace n v [] h = refl
find-replace n v (w ∷ ws) h = ground (arith, find-replace n v ws h)

same_waiter :
    (t : Table) (w v : Waiter)
    → find w.id t.waiters ≡ some w
    → find v.id t.waiters ≡ some v
    → w.id ≡ v.id
    → w ≡ v
same_waiter t w v f g e = ground (arith, f, g, e, ap (λ (n : ℕ). find n t.waiters) e)

leaving_waiting : leaving ≢ waiting
leaving_waiting e = cc

-- A waiter that waits is not the one that has left.
other_waiter :
    (t : Table) (w v : Waiter)
    → find w.id t.waiters ≡ some w
    → find v.id t.waiters ≡ some v
    → w.phase ≡ leaving
    → v.phase ≡ waiting
    → w.id ≢ v.id
other_waiter t w v f g l k e =
    let q = same_waiter t w v f g e in leaving_waiting (sym l ∙ ap (λ (x : Waiter). x.phase) q ∙ k)

full_empty : (r : Reply) → some r ≢ none
full_empty r e = cc

cons_nil : (n : ℕ) (ns : List ℕ) → n ∷ ns ≢ []
cons_nil n ns e = cc

same_jam :
    (t t' : Table) (j : Jammed t)
    → t'.reader ≡ t.reader
    → find j.waiter.id t'.waiters ≡ find j.waiter.id t.waiters
    → Jammed t'
same_jam t t' j r f = record {
  waiter = j.waiter;
  rest = j.rest;
  reply = j.reply;
  held = r ∙ j.held;
  there = f ∙ j.there;
  left = j.left;
  full = j.full;
}

not_free : (t : Table) → Jammed t → is_free t.reader ≢ true
not_free t j e = let h = j.held in ground (arith, h, e)

not_reading : (t : Table) → Jammed t → t.reader ≢ reading
not_reading t j e = not_free t j (rw e refl)

not_done : (t : Table) → Jammed t → t.reader ≢ done
not_done t j e = not_free t j (rw e refl)

failing_ids : (ns ms : List ℕ) → failing ns ≡ failing ms → ns ≡ ms
failing_ids ns ms e = cc

-- The calls that have entered the map and not returned.
abbrev pub ids : List Waiter → List ℕ
ids [] = []
ids (w ∷ ws) = w.id ∷ ids ws

ids-replace : (v : Waiter) (ws : List Waiter) → ids (replace v ws) ≡ ids ws
unfolding replace
ids-replace v [] = refl
ids-replace v (w ∷ ws) = ground (arith, ids-replace v ws)

Step-Jammed : (t t' : Table) → Step t t' → Jammed t → Jammed t' × (ids t'.waiters ≡ ids t.waiters)
Step-Jammed t _ (numbers _) j = (same_jam t _ j refl refl, refl)
Step-Jammed t _ (begins _ n f e) j = absurd (not_free t j f)
Step-Jammed t _ (delivers _ w text r f l b) j = absurd (not_reading t j r)
Step-Jammed t _ (ignores _ n text r u) j = absurd (not_reading t j r)
Step-Jammed t _ (takes _ w r f p b) j =
    let v = record w { buffer = none; phase = leaving } in
    (
      same_jam t _ j refl
          (find-replace j.waiter.id v t.waiters (other_waiter t j.waiter w j.there f j.left p)),
      ids-replace v t.waiters,
    )
Step-Jammed t _ (cancels _ w f p) j =
    let v = record w { phase = leaving } in
    (
      same_jam t _ j refl
          (find-replace j.waiter.id v t.waiters (other_waiter t j.waiter w j.there f j.left p)),
      ids-replace v t.waiters,
    )
Step-Jammed t _ (leaves _ w f g p) j = absurd (not_free t j f)
Step-Jammed t _ (closes _ r) j = absurd (not_reading t j r)
Step-Jammed t _ (tells _ w ns r f b) j =
    let e = failing_ids _ _ (sym j.held ∙ r) in
    let q : j.waiter ≡ w = same_waiter t j.waiter w j.there f (ground (arith, e)) in
    absurd (full_empty j.reply (sym j.full ∙ ap (λ (x : Waiter). x.buffer) q ∙ b))
Step-Jammed t _ (finishes _ r) j = absurd (cons_nil _ _ (failing_ids _ _ (sym j.held ∙ r)))
Step-Jammed t _ (restarts _ r) j = absurd (not_done t j r)

Later-Jammed : {t t' : Table} → Later t t' → Jammed t → Jammed t' × (ids t'.waiters ≡ ids t.waiters)
Later-Jammed (here t) j = (j, refl)
Later-Jammed (next t t' t'' s l) j =
    let (j', e) = Step-Jammed t t' s j in let (j'', e') = Later-Jammed l j' in (j'', e' ∙ e)

-- A call, its reply, the end of the pipe and the end of the call's context, in this order.
abbrev jam : Table → Text → Table
jam t text =
    let w = fresh_waiter (suc t.next_id) in
    let v = record w { buffer = some (wrote text) } in
    let called = record t {
      next_id = suc t.next_id;
      numbered = drop_number w.id (w.id ∷ t.numbered);
      waiters = w ∷ t.waiters;
    } in
    let answered = record called {
      waiters = replace v called.waiters;
      written = (w.id, text) ∷ t.written;
    } in
    let closed = record answered { reader = failing (ids_listed answered.waiters) } in
    record closed { waiters = replace (record v { phase = leaving }) closed.waiters }

-- While a plugin's pipe is read, whatever its calls are: a call that gets its reply as the pipe closes and its context
-- ends can leave the reader waiting for it with pendingMu held; and from then on, whatever happens, the reader waits, the
-- mutex is held, no call enters the map, and none that is in it returns.
pub call_can_jam :
    (t : Table) (text : Text)
    → t.reader ≡ reading
    → (t' : Table) × Later t t'
      × ((t'' : Table) → Later t' t'' → Jammed t'' × (ids t''.waiters ≡ ids t'.waiters))
unfolding find replace
call_can_jam t text r =
    let w = fresh_waiter (suc t.next_id) in
    let v = record w { buffer = some (wrote text) } in
    let taken = record t { next_id = suc t.next_id; numbered = suc t.next_id ∷ t.numbered } in
    let called = record t {
      next_id = suc t.next_id;
      numbered = drop_number w.id (w.id ∷ t.numbered);
      waiters = w ∷ t.waiters;
    } in
    let answered = record called {
      waiters = replace v called.waiters;
      written = (w.id, text) ∷ t.written;
    } in
    let closed = record answered { reader = failing (ids_listed answered.waiters) } in
    let j : Jammed (jam t text) = record {
      waiter = record v { phase = leaving };
      rest = ids_listed (replace v t.waiters);
      reply = wrote text;
      held = ap (λ (l : List Waiter). failing (ids_listed l)) (replace_first v w t.waiters refl);
      there =
          ap (λ (l : List Waiter). find w.id (replace (record v { phase = leaving }) l))
            (replace_first v w t.waiters refl)
          ∙ ap (find w.id)
              (replace_first (record v { phase = leaving }) v (replace v t.waiters) refl)
          ∙ find_first (record v { phase = leaving })
              (replace (record v { phase = leaving }) (replace v t.waiters));
      left = refl;
      full = refl;
    } in
    let again : find v.id closed.waiters ≡ some v =
      ap (find w.id) (replace_first v w t.waiters refl) ∙ find_first v (replace v t.waiters) in
    (
      jam t text,
      next t taken _ (numbers t) (
          next taken called _ (begins taken (suc t.next_id) (rw r refl) (ground arith)) (
            next called answered _ (delivers called w text r (find_first w t.waiters) refl refl) (
              next answered closed _ (closes answered r)
                (next closed (jam t text) _ (cancels closed v again refl) (here (jam t text)))))),
      λ t'' l. Later-Jammed l j,
    )
