-- ===== src/Session/Manager/Reaper.antt =====
-- internal/session/manager.go, the sweep for idle sessions, with no other call inside it: what it takes out of the map, what it leaves, and what becomes of
-- the sessions that it takes out.
use streamcore_server.Base.{
  Bool-cases, Distinct, List, Map, Option, Option-cases, Text, [], ap, arith, false, if◌then◌else◌,
  inl, inr, lookup, lookup-delete, none, refl, some, text_eq, text_eq_self, text_eq_iff, true, ℕ,
  ◌∙◌, ◌∷◌, ◌≡◌, ◌≢◌, ◌⊎◌,
}
use streamcore_server.Session.State.{Session}
use streamcore_server.Session.State.Eviction.{Keeps, close-Keeps, close-is_cancelled, Keeps-trans}
use streamcore_server.Session.Manager.{
  Manager, sweep_expired, forget, close_sessions, reap, is_expired, grace, close_session,
}
use streamcore_server.Session.Manager.Invariant.{Inv, forget-Inv, close_session-Inv}

-- The entries of a part of the map are all there.
abbrev Present : Manager → Map ℕ → Type 0
Present m [] = Unit {0}
Present m ((k, a) ∷ r) = (lookup k m.sessions ≡ some a) × Present m r

forget-Present :
    (id : Text) (a : ℕ) (m : Manager) (r : Map ℕ)
    → lookup id r ≡ none
    → Present m r
    → Present (forget id a m) r
unfolding forget lookup
forget-Present id a m [] e p = tt
forget-Present id a m ((k, b) ∷ r) e (f, p) = ground (
  arith,
  forget-Present id a m r,
  lookup-delete id k m.sessions,
  text_eq_iff k id,
  text_eq_iff id k,
)

Present-cons :
    (k : Text) (a : ℕ) (s : Map ℕ) (m : Manager) (r : Map ℕ)
    → lookup k r ≡ none
    → Present (record m { sessions = s }) r
    → Present (record m { sessions = (k, a) ∷ s }) r
unfolding lookup
Present-cons k a s m [] e p = tt
Present-cons k a s m ((j, b) ∷ r) e (f, p) =
    ground (arith, Present-cons k a s m r, text_eq_iff j k, text_eq_iff k j)

Present-self : (m : Manager) (r : Map ℕ) → Distinct r → Present (record m { sessions = r }) r
unfolding lookup
Present-self m [] d = tt
Present-self m ((k, a) ∷ r) (e, d) =
    ground (arith, text_eq_self k, Present-cons k a r m r e (Present-self m r d))

sweep_expired-Inv :
    (now : ℕ) (r : Map ℕ) (m : Manager)
    → Distinct r
    → Present m r
    → Inv m
    → Inv (sweep_expired now r m).0
unfolding sweep_expired
sweep_expired-Inv now [] m d p v = v
sweep_expired-Inv now ((id, a) ∷ r) m (e, d) (f, p) v = elim (Bool-cases (is_expired m now a)) [
  | inl late ↦ rw late (
      sweep_expired-Inv now r (forget id a m) d (forget-Present id a m r e p)
        (forget-Inv id a m f v))
  | inr fresh ↦ rw fresh (sweep_expired-Inv now r m d p v)
]

close_sessions-Inv : (now : ℕ) (as' : List ℕ) (m : Manager) → Inv m → Inv (close_sessions now as' m)
unfolding close_sessions
close_sessions-Inv now [] m v = v
close_sessions-Inv now (a ∷ as') m v =
    close_sessions-Inv now as' (close_session now a m) (close_session-Inv now a m v)

pub reap-Inv : (m : Manager) (now : ℕ) → Inv m → Inv (reap m now)
unfolding reap
reap-Inv m now v =
    close_sessions-Inv now (sweep_expired now m.sessions m).1 (sweep_expired now m.sessions m).0
      (sweep_expired-Inv now m.sessions m v.distinct (Present-self m m.sessions v.distinct) v)

-- Forgetting one session changes no session, so it does not change which others are expired.
forget-is_expired :
    (id : Text) (a : ℕ) (m : Manager) (now b : ℕ)
    → is_expired (forget id a m) now b ≡ is_expired m now b
unfolding forget is_expired grace
forget-is_expired id a m now b = refl

-- What the sweep leaves under a name.
abbrev left_of : Manager → ℕ → Option ℕ → Option ℕ → Option ℕ
left_of m now listed held = elim listed [
  | none ↦ held
  | some a ↦ if is_expired m now a then none else held
]

lookup-forget :
    (k id : Text) (a : ℕ) (m : Manager)
    → lookup id (forget k a m).sessions ≡ (if text_eq k id then none else lookup id m.sessions)
unfolding forget
lookup-forget k id a m = lookup-delete k id m.sessions

lookup-sweep_expired :
    (now : ℕ) (r : Map ℕ) (m : Manager) (id : Text)
    → Distinct r
    → lookup id (sweep_expired now r m).0.sessions
      ≡ left_of m now (lookup id r) (lookup id m.sessions)
unfolding sweep_expired lookup
lookup-sweep_expired now [] m id d = refl
lookup-sweep_expired now ((k, a) ∷ r) m id (e, d) = elim (Bool-cases (is_expired m now a)) [
  | inr fresh ↦ rw fresh (ground (arith, lookup-sweep_expired now r m id d, text_eq_iff k id))
  | inl late ↦
      let ih = lookup-sweep_expired now r (forget k a m) id d in
      rw late (elim (Option-cases (lookup id r)) [
        | inl f ↦ ground (arith, ih, lookup-forget k id a m)
        | inr (b, f) ↦
            ground
              (arith, ih, lookup-forget k id a m, forget-is_expired k a m now b, text_eq_iff k id)
      ])
]

close_sessions-sessions :
    (now : ℕ) (as' : List ℕ) (m : Manager) → (close_sessions now as' m).sessions ≡ m.sessions
unfolding close_sessions close_session
close_sessions-sessions now [] m = refl
close_sessions-sessions now (a ∷ as') m = close_sessions-sessions now as' (close_session now a m)

-- The sweep takes out exactly the sessions that are idle for the grace period or longer.
lookup-reap :
    (m : Manager) (now : ℕ) (id : Text)
    → Inv m
    → lookup id (reap m now).sessions ≡ left_of m now (lookup id m.sessions) (lookup id m.sessions)
unfolding reap
lookup-reap m now id v =
    rw
      (close_sessions-sessions now (sweep_expired now m.sessions m).1
        (sweep_expired now m.sessions m).0)
      (lookup-sweep_expired now m.sessions m id v.distinct)

abbrev Has : ℕ → List ℕ → Type 0
Has a [] = ⊥
Has a (b ∷ bs) = (b ≡ a) ⊎ Has a bs

sweep_expired-heap : (now : ℕ) (r : Map ℕ) (m : Manager) → (sweep_expired now r m).0.heap ≡ m.heap
unfolding sweep_expired forget
sweep_expired-heap now [] m = refl
sweep_expired-heap now ((k, a) ∷ r) m =
    ground (arith, sweep_expired-heap now r m, sweep_expired-heap now r (forget k a m))

sweep_expired-Has :
    (now : ℕ) (r : Map ℕ) (m : Manager) (id : Text) (a : ℕ)
    → lookup id r ≡ some a
    → is_expired m now a ≡ true
    → Has a (sweep_expired now r m).1
unfolding sweep_expired lookup
sweep_expired-Has now [] m id a e x = cc
sweep_expired-Has now ((k, b) ∷ r) m id a e x = ground (
  arith,
  sweep_expired-Has now r m id a,
  sweep_expired-Has now r (forget k b m) id a,
  forget-is_expired k b m now a,
)

sweep_expired-spares :
    (now : ℕ) (r : Map ℕ) (m : Manager) (a : ℕ)
    → is_expired m now a ≡ false
    → ¬ Has a (sweep_expired now r m).1
unfolding sweep_expired
sweep_expired-spares now [] m a x h = h
sweep_expired-spares now ((k, b) ∷ r) m a x h = ground (
  arith,
  sweep_expired-spares now r m a,
  sweep_expired-spares now r (forget k b m) a,
  forget-is_expired k b m now a,
)

close_sessions-keeps_cancelled :
    (now : ℕ) (as' : List ℕ) (m : Manager) (a : ℕ)
    → (m.heap a).is_cancelled ≡ true
    → ((close_sessions now as' m).heap a).is_cancelled ≡ true
unfolding close_sessions close_session
close_sessions-keeps_cancelled now [] m a e = e
close_sessions-keeps_cancelled now (b ∷ bs) m a e =
    close_sessions-keeps_cancelled now bs (close_session now b m) a
      (ground (arith, close-is_cancelled now (m.heap b)))

close_sessions-cancels :
    (now : ℕ) (as' : List ℕ) (m : Manager) (a : ℕ)
    → Has a as'
    → ((close_sessions now as' m).heap a).is_cancelled ≡ true
unfolding close_sessions close_session
close_sessions-cancels now [] m a h = absurd h
close_sessions-cancels now (b ∷ bs) m a (inl e) =
    close_sessions-keeps_cancelled now bs (close_session now b m) a
      (ground (arith, close-is_cancelled now (m.heap b)))
close_sessions-cancels now (b ∷ bs) m a (inr h) =
    close_sessions-cancels now bs (close_session now b m) a h

close_sessions-spares :
    (now : ℕ) (as' : List ℕ) (m : Manager) (a : ℕ)
    → ¬ Has a as'
    → (close_sessions now as' m).heap a ≡ m.heap a
unfolding close_sessions close_session
close_sessions-spares now [] m a h = refl
close_sessions-spares now (b ∷ bs) m a h =
    let other : b ≢ a = λ e. h (inl e) in
    close_sessions-spares now bs (close_session now b m) a (λ k. h (inr k)) ∙ ground arith

close_sessions-Keeps :
    (now : ℕ) (as' : List ℕ) (m : Manager) (a : ℕ)
    → Keeps (m.heap a) ((close_sessions now as' m).heap a)
unfolding close_sessions close_session
close_sessions-Keeps now [] m a = ground arith
close_sessions-Keeps now (b ∷ bs) m a =
    Keeps-trans (ground (arith, close-Keeps now (m.heap b)))
      (close_sessions-Keeps now bs (close_session now b m) a)

reap-is_cancelled :
    (m : Manager) (now : ℕ) (id : Text) (a : ℕ)
    → lookup id m.sessions ≡ some a
    → is_expired m now a ≡ true
    → ((reap m now).heap a).is_cancelled ≡ true
unfolding reap
reap-is_cancelled m now id a e x =
    close_sessions-cancels now (sweep_expired now m.sessions m).1 (sweep_expired now m.sessions m).0
      a (sweep_expired-Has now m.sessions m id a e x)

reap-spares :
    (m : Manager) (now a : ℕ) → is_expired m now a ≡ false → (reap m now).heap a ≡ m.heap a
unfolding reap
reap-spares m now a x =
    close_sessions-spares now (sweep_expired now m.sessions m).1 (sweep_expired now m.sessions m).0
      a (sweep_expired-spares now m.sessions m a x)
    ∙ ap (λ (h : ℕ → Session). h a) (sweep_expired-heap now m.sessions m)

reap-id : (m : Manager) (now a : ℕ) → ((reap m now).heap a).id ≡ (m.heap a).id
unfolding reap
reap-id m now a =
    (close_sessions-Keeps now (sweep_expired now m.sessions m).1 (sweep_expired now m.sessions m).0
      a).same_id
    ∙ ap (λ (h : ℕ → Session). (h a).id) (sweep_expired-heap now m.sessions m)

-- One sweep, from any state of the invariant. Under each name the map keeps what it had, except
-- that a session which is idle for the grace period or longer is taken out. Such a session is
-- closed, and no resume token leads to it any more; every other session is as it was.
pub reap_lem :
    (m : Manager) (now : ℕ) (id : Text) (a : ℕ)
    → Inv m
    → lookup id m.sessions ≡ some a
    → let q = reap m now in
      (lookup id q.sessions ≡ (if is_expired m now a then none else some a))
      × (is_expired m now a ≡ true
          → ((q.heap a).is_cancelled ≡ true) × ((t : Text) → lookup t q.resumable ≢ some a))
      × (is_expired m now a ≡ false → q.heap a ≡ m.heap a)
reap_lem m now id a v e = (
  out,
  λ x. (
    reap-is_cancelled m now id a e x,
    λ t f. ground (arith, out, id_kept, (reap-Inv m now v).live t a f),
  ),
  reap-spares m now a,
)
  where
    out : lookup id (reap m now).sessions ≡ (if is_expired m now a then none else some a)
    out = lookup-reap m now id v ∙ ground arith

    id_kept : ((reap m now).heap a).id ≡ id
    id_kept = reap-id m now a ∙ v.named id a e
