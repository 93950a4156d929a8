-- ===== src/Session/Manager/Tokens.antt =====
-- internal/session/manager.go: resume tokens, where calls follow one another.
use streamcore_server.Base.{
  Text, [], arith, delete, insert, lookup, lookup-delete_self, lookup-insert, lookup-insert_self,
  none, refl, some, text_eq_self, text_eq_iff, true, ℕ, ◌+◌, ◌≡◌, ◌≢◌, ◌≤◌,
}
use streamcore_server.Session.State.{Session}
use streamcore_server.Session.State
use streamcore_server.Session.Manager.{
  Manager, issue_resume_token, resume, write, without, grace, reap, is_expired,
}
use streamcore_server.Session.Manager.Invariant.{Inv, IsLive, lookup-without, resume-Inv}
use streamcore_server.Session.State.Eviction.{evict_peers_lem}
use streamcore_server.Session.Manager.Reaper.{reap_lem}

-- Issuing the token `t` for a session of the map. The token is not empty and new to the index, which
-- random tokens are.
abbrev pub CanIssue : Manager → ℕ → Text → Type 0
CanIssue m a t =
    Inv m × (State.resumable m.cfg ≡ true) × IsLive m a × (t ≢ []) × (lookup t m.resumable ≡ none)

-- The state after the token `t` was issued.
abbrev pub issued : Manager → ℕ → Text → Manager
issued m a t = record m {
  heap = write m.heap a (record (m.heap a) { resume_token = t });
  resumable = insert t a (without (m.heap a).resume_token m.resumable);
}

pub issue_resume_token_lem :
    (m : Manager) (a : ℕ) (t : Text)
    → State.resumable m.cfg ≡ true
    → issue_resume_token m a (some t) ≡ (issued m a t, t)
unfolding issue_resume_token State.rotate_resume_token
issue_resume_token_lem m a t r = rw r

-- The state after the token `t` led to the session at `a`.
abbrev pub resumed : Manager → Text → ℕ → ℕ → Manager
resumed m t a now = record m {
  resumable = delete t m.resumable;
  heap = write m.heap a (State.evict_peers now (m.heap a));
}

pub resume_found :
    (m : Manager) (t : Text) (a now : ℕ)
    → t ≢ []
    → lookup t m.resumable ≡ some a
    → resume m t now ≡ (resumed m t a now, some a)
unfolding resume
resume_found m t a now h e = ground arith

resume_missing :
    (m : Manager) (t : Text) (now : ℕ) → lookup t m.resumable ≡ none → (resume m t now).1 ≡ none
unfolding resume
resume_missing m t now e = ground arith

-- In a state that keeps the invariant, for a session that is listed and can be resumed, and a
-- token that is new and not empty: a token that was issued reattaches to its session once. The
-- conversation and the identity are the same, the peers of the lost connection are gone, and a
-- second use of the token finds nothing.
pub resume-issue_resume_token :
    (m : Manager) (a : ℕ) (t : Text) (now later : ℕ)
    → CanIssue m a t
    → let p = (issue_resume_token m a (some t)).0 in
      let q = (resume p t now).0 in
      ((issue_resume_token m a (some t)).1 ≡ t)
      × ((resume p t now).1 ≡ some a)
      × ((q.heap a).conv ≡ (m.heap a).conv)
      × ((q.heap a).resource_id ≡ (m.heap a).resource_id)
      × ((q.heap a).peers ≡ [])
      × ((resume q t later).1 ≡ none)
resume-issue_resume_token m a t now later (v, r, here, given, free) =
    let s : Session = record (m.heap a) { resume_token = t } in
    let (gone, _, kept') = evict_peers_lem now s in
    rw (issue_resume_token_lem m a t r) (
      rw (resume_found (issued m a t) t a now given (lookup-insert_self t a _)) (
        refl,
        refl,
        ground arith,
        ground arith,
        ground arith,
        resume_missing _ t later (lookup-delete_self t _),
      ))

-- Under the conditions of `CanIssue`, issuing a token other than the current one of the session ends that
-- one.
pub issue_resume_token_revokes :
    (m : Manager) (a : ℕ) (t : Text) (now : ℕ)
    → CanIssue m a t
    → (m.heap a).resume_token ≢ t
    → (resume (issue_resume_token m a (some t)).0 (m.heap a).resume_token now).1 ≡ none
issue_resume_token_revokes m a t now (v, r, here, given, free) ne =
    let old = (m.heap a).resume_token in
    rw (issue_resume_token_lem m a t r) (
      resume_missing (issued m a t) old now (
        ground (
          arith,
          lookup-insert t old a (without old m.resumable),
          lookup-without old old m.resumable v.no_empty,
          text_eq_self old,
          text_eq_iff t old,
        )))

resumed-is_expired :
    (m : Manager) (t : Text) (a now idle later : ℕ)
    → (m.heap a).peers ≡ []
    → (m.heap a).idle_since ≡ some idle
    → idle + grace m ≤ later
    → is_expired (resumed m t a now) later a ≡ true
unfolding is_expired grace State.evict_peers State.close_peers
resumed-is_expired m t a now idle later alone since late = ground arith

-- No use of a token restarts the grace period of a session that is idle already: a session with no
-- peer, idle since `idle`, is handed to a client that resumes, and a sweep at `idle` plus the grace
-- period, if it comes before the new peer, takes the session out of the map and closes it under
-- that client.
pub resume_keeps_idle :
    (m : Manager) (id t : Text) (a now idle later : ℕ)
    → Inv m
    → t ≢ []
    → lookup t m.resumable ≡ some a
    → lookup id m.sessions ≡ some a
    → (m.heap a).peers ≡ []
    → (m.heap a).idle_since ≡ some idle
    → idle + grace m ≤ later
    → let q = reap (resume m t now).0 later in
      ((resume m t now).1 ≡ some a)
      × (lookup id q.sessions ≡ none)
      × ((q.heap a).is_cancelled ≡ true)
resume_keeps_idle m id t a now idle later v given e f alone since late =
    let found = resume_found m t a now given e in
    let w : Inv (resumed m t a now) = rw found at (resume-Inv m t now v) in
    let (out, gone, _) = reap_lem (resumed m t a now) later id a w f in
    let x = resumed-is_expired m t a now idle later alone since late in
    rw found (refl, ground arith, (gone x).0)
