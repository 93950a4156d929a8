-- ===== src/Session/Manager/Invariant.antt =====
-- internal/session/manager.go: an invariant of the two maps, for calls that follow one another and tokens that are issued for
-- sessions of the map.
use streamcore_server.Base.{
  Bool-cases, Distinct, Map, Option, Option-cases, Text, [], arith, delete, delete-Distinct,
  if◌then◌else◌, inl, inr, insert, insert-Distinct, leb, lookup, lookup-delete, lookup-insert, ltb,
  none, refl, size, size-delete-le, size-insert, some, text_eq, text_eq_iff, ℕ, ◌&&◌, ◌+◌, ◌<◌, ◌∷◌,
  ◌≡◌, ◌≢◌, ◌≤◌,
}
use streamcore_server.Session.State.{Session}
use streamcore_server.Session.State
use streamcore_server.Session.State.Eviction.{evict_peers-Keeps, close-Keeps}
use streamcore_server.Session.Manager.{
  Manager, new_manager, resume, remove, get_or_create, issue_resume_token, close_session, write,
  forget, Config, without,
}

-- The session at an address is the one that the map holds under its name.
abbrev pub IsLive : Manager → ℕ → Type 0
IsLive m a = lookup (m.heap a).id m.sessions ≡ some a

pub record Inv (m : Manager) : Type 0 where
  pub distinct : Distinct m.sessions
  -- Every session of the map is allocated, and stands under its own name.
  pub allocated : (id : Text) (a : ℕ) → lookup id m.sessions ≡ some a → a < m.next
  pub named : (id : Text) (a : ℕ) → lookup id m.sessions ≡ some a → (m.heap a).id ≡ id
  -- A token of the index is the current token of a live session.
  pub current : (t : Text) (a : ℕ) → lookup t m.resumable ≡ some a → (m.heap a).resume_token ≡ t
  pub live : (t : Text) (a : ℕ) → lookup t m.resumable ≡ some a → IsLive m a
  pub no_empty : lookup [] m.resumable ≡ none
  pub capped : 0 < m.cfg.max_sessions → size m.sessions ≤ m.cfg.max_sessions

pub new_manager-Inv : (c : Config) → Inv (new_manager c)
unfolding new_manager lookup size
new_manager-Inv c = record {
  distinct = tt;
  allocated = λ id a e. ground arith;
  named = λ id a e. ground arith;
  current = λ t a e. ground arith;
  live = λ t a e. ground arith;
  no_empty = refl;
  capped = λ h. omega arith;
}

-- Writing a session that keeps its name and token.
pub write-Inv :
    (m : Manager) (b : ℕ) (s : Session)
    → s.id ≡ (m.heap b).id
    → s.resume_token ≡ (m.heap b).resume_token
    → Inv m
    → Inv (record m { heap = write m.heap b s })
write-Inv m b s same_id same_token v = record {
  distinct = v.distinct;
  allocated = v.allocated;
  named = λ id a e. ground (arith, v.named id a e);
  current = λ t a e. ground (arith, v.current t a e);
  live = λ t a e. ground (arith, v.live t a e);
  no_empty = v.no_empty;
  capped = v.capped;
}

pub close_session-Inv : (now a : ℕ) (m : Manager) → Inv m → Inv (close_session now a m)
unfolding close_session
close_session-Inv now a m v =
    let k = close-Keeps now (m.heap a) in
    write-Inv m a (State.close now (m.heap a)) k.same_id k.same_token v

pub lookup-without :
    (token t : Text) (r : Map ℕ)
    → lookup [] r ≡ none
    → lookup t (without token r) ≡ (if text_eq token t then none else lookup t r)
lookup-without [] t r e = ground (arith, text_eq_iff [] t)
lookup-without (c ∷ cs) t r e = lookup-delete (c ∷ cs) t r

-- Taking a session out of the map takes its token out of the index.
pub forget-Inv :
    (id : Text) (a : ℕ) (m : Manager) → lookup id m.sessions ≡ some a → Inv m → Inv (forget id a m)
unfolding forget
forget-Inv id a m e v =
    let token = (m.heap a).resume_token in
    let index = λ (t : Text). lookup-without token t m.resumable v.no_empty in
    record {
      distinct = delete-Distinct id m.sessions v.distinct;
      allocated = λ j b f. ground (arith, v.allocated j b, lookup-delete id j m.sessions);
      named = λ j b f. ground (arith, v.named j b, lookup-delete id j m.sessions);
      current = λ t b f. ground (arith, v.current t b, index t);
      live = λ t b f. ground (
        arith,
        index t,
        v.current t b,
        v.live t b,
        lookup-delete id (m.heap b).id m.sessions,
        text_eq_iff id (m.heap b).id,
        text_eq_iff token t,
      );
      no_empty = ground (arith, index [], v.no_empty);
      capped = λ h. omega (arith, v.capped h, size-delete-le id m.sessions);
    }

pub remove-Inv : (m : Manager) (id : Text) (now : ℕ) → Inv m → Inv (remove m id now)
unfolding remove
remove-Inv m id now v = elim (Option-cases (lookup id m.sessions)) [
  | inl e ↦ rw (e, remove) v
  | inr (a, e) ↦
      rw (e, remove)
        (forget-Inv id a (close_session now a m) (unfold close_session in e)
          (close_session-Inv now a m v))
]

delete_token-Inv :
    (m : Manager) (token : Text) → Inv m → Inv (record m { resumable = delete token m.resumable })
delete_token-Inv m token v = record {
  distinct = v.distinct;
  allocated = v.allocated;
  named = v.named;
  current = λ t b f. ground (arith, v.current t b, lookup-delete token t m.resumable);
  live = λ t b f. ground (arith, v.live t b, lookup-delete token t m.resumable);
  no_empty = ground (arith, v.no_empty, lookup-delete token [] m.resumable);
  capped = v.capped;
}

pub resume-Inv : (m : Manager) (token : Text) (now : ℕ) → Inv m → Inv (resume m token now).0
unfolding resume
resume-Inv m token now v = elim (Option-cases (lookup token m.resumable)) [
  | inl e ↦ ground arith
  | inr (a, e) ↦
      let k = evict_peers-Keeps now (m.heap a) in
      let done =
        write-Inv (record m { resumable = delete token m.resumable }) a
          (State.evict_peers now (m.heap a)) k.same_id k.same_token (delete_token-Inv m token v) in
      ground (arith, done)
]

-- A session with no token and a free name enters at a new address.
create-Inv :
    (m : Manager) (id : Text) (s : Session)
    → lookup id m.sessions ≡ none
    → s.id ≡ id
    → (0 < m.cfg.max_sessions → size m.sessions < m.cfg.max_sessions)
    → Inv m
    → Inv (record m {
      heap = write m.heap m.next s;
      next = m.next + 1;
      sessions = insert id m.next m.sessions;
    })
create-Inv m id s e n room v =
    let found = λ (j : Text). lookup-insert id j m.next m.sessions in
    record {
      distinct = insert-Distinct id m.next m.sessions v.distinct;
      allocated = λ j b f. ground (arith, v.allocated j b, found j);
      named = λ j b f. ground (arith, v.named j b, v.allocated j b, found j, text_eq_iff id j);
      current = λ t b f. ground (arith, v.current t b f, v.live t b f, v.allocated (m.heap b).id b);
      live = λ t b f. ground (
        arith,
        v.live t b f,
        v.allocated (m.heap b).id b,
        found (m.heap b).id,
        text_eq_iff id (m.heap b).id,
      );
      no_empty = v.no_empty;
      capped = λ h. ground (arith, room h, size-insert id m.next m.sessions);
    }

pub get_or_create-Inv : (m : Manager) (id : Text) (now : ℕ) → Inv m → Inv (get_or_create m id now).0
unfolding get_or_create
get_or_create-Inv m id now v = elim (Option-cases (lookup id m.sessions)) [
  | inr (a, e) ↦ rw (e, get_or_create) v
  | inl e ↦
      let full = ltb 0 m.cfg.max_sessions && leb m.cfg.max_sessions (size m.sessions) in
      elim (Bool-cases full) [
        | inl yes' ↦ rw (e, get_or_create) (rw yes' v)
        | inr no' ↦
            rw (e, get_or_create)
              (rw no' (create-Inv m id (State.new_session id now) e named (λ h. ground arith) v))
      ]
]
  where
    named : (State.new_session id now).id ≡ id
    named = unfold State.new_session in refl

-- A new token for a live session: it is not empty, and the index does not hold it yet.
issued-Inv :
    (m : Manager) (a : ℕ) (t : Text)
    → IsLive m a
    → t ≢ []
    → lookup t m.resumable ≡ none
    → Inv m
    → Inv (record m {
      heap = write m.heap a (record (m.heap a) { resume_token = t });
      resumable = insert t a (without (m.heap a).resume_token m.resumable);
    })
issued-Inv m a t here given new v =
    let old = (m.heap a).resume_token in
    let left = λ (u : Text). lookup-without old u m.resumable v.no_empty in
    let found = λ (u : Text). lookup-insert t u a (without old m.resumable) in
    record {
      distinct = v.distinct;
      allocated = v.allocated;
      named = λ j b f. ground (arith, v.named j b f);
      current = λ u b f.
          ground (arith, found u, left u, v.current u b, text_eq_iff t u, text_eq_iff old u);
      live = λ u b f. ground (arith, found u, left u, v.live u b);
      no_empty = ground (arith, found [], left [], v.no_empty, text_eq_iff t []);
      capped = v.capped;
    }

pub issue_resume_token-Inv :
    (m : Manager) (a : ℕ) (token : Option Text)
    → IsLive m a
    → ((t : Text) → token ≡ some t → (t ≢ []) × (lookup t m.resumable ≡ none))
    → Inv m
    → Inv (issue_resume_token m a token).0
unfolding issue_resume_token State.rotate_resume_token
issue_resume_token-Inv m a none here new v = ground arith
issue_resume_token-Inv m a (some t) here new v =
    let (given, free) = new t refl in
    let done = issued-Inv m a t here given free v in ground (arith, done)
