-- ===== src/Session/Manager/Capacity.antt =====
-- Who gets a session when the server is full.
use streamcore_server.Base.{
  Bool-cases, Text, arith, inl, inr, insert, leb, lookup, lookup-insert, lookup-insert_self, ltb,
  none, refl, size, some, text_eq_iff, true, ℕ, ◌&&◌, ◌+◌, ◌<◌, ◌↔◌, ◌≡◌, ◌≤◌,
}
use streamcore_server.Session.State.{Session}
use streamcore_server.Session.State
use streamcore_server.Session.Manager.{Manager, get_or_create, get, write}
use streamcore_server.Session.Manager.Invariant.{Inv}

-- A cap is set and reached.
abbrev pub IsFull : Manager → Type 0
IsFull m = (0 < m.cfg.max_sessions) × (m.cfg.max_sessions ≤ size m.sessions)

IsFull-cases :
    (m : Manager)
    → ((ltb 0 m.cfg.max_sessions && leb m.cfg.max_sessions (size m.sessions)) ≡ true) ↔ IsFull m
IsFull-cases m = ground arith

-- A name that the map holds is answered with its session, whether the server is full or not, and
-- nothing changes. A new name is refused exactly if a cap is set and reached, and then nothing
-- changes.
pub get_or_create_refuses :
    (m : Manager) (id : Text) (now : ℕ)
    → ((a : ℕ) → lookup id m.sessions ≡ some a → get_or_create m id now ≡ (m, some a))
      × (lookup id m.sessions ≡ none → ((get_or_create m id now).1 ≡ none) ↔ IsFull m)
      × ((get_or_create m id now).1 ≡ none → (get_or_create m id now).0 ≡ m)
unfolding get_or_create
get_or_create_refuses m id now =
    (λ a e. rw (e, get_or_create), λ e. (λ h. ground arith, λ h. ground arith), λ h. ground arith)

get_or_create_new :
    (m : Manager) (id : Text) (now : ℕ)
    → lookup id m.sessions ≡ none
    → ¬ IsFull m
    → get_or_create m id now ≡ (
      record m {
        heap = write m.heap m.next (State.new_session id now);
        next = m.next + 1;
        sessions = insert id m.next m.sessions;
      },
      some m.next,
    )
unfolding get_or_create
get_or_create_new m id now e room =
    elim (Bool-cases (ltb 0 m.cfg.max_sessions && leb m.cfg.max_sessions (size m.sessions))) [
      | inl full ↦ absurd (room ((IsFull-cases m).0 full))
      | inr free ↦ rw (e, get_or_create) (rw free)
    ]

-- A new name, with no cap on sessions reached: the new session is found under it, at an address that
-- no other session has, idle from now on, with no peer, no conversation and no token. Every session
-- that was there stays as it was, under its name. It holds in every state that keeps the invariant.
pub get_or_create_creates :
    (m : Manager) (id : Text) (now : ℕ)
    → Inv m
    → lookup id m.sessions ≡ none
    → ¬ IsFull m
    → let (q, r) = get_or_create m id now in
      (r ≡ some m.next)
      × (get q id ≡ some m.next)
      × (q.heap m.next ≡ State.new_session id now)
      × ((j : Text) (a : ℕ) → get m j ≡ some a → (get q j ≡ some a) × (q.heap a ≡ m.heap a))
unfolding get
get_or_create_creates m id now v e room = rw (get_or_create_new m id now e room) (
  refl,
  lookup-insert_self id m.next m.sessions,
  ground arith,
  λ j a f. (
    ground (arith, lookup-insert id j m.next m.sessions, text_eq_iff id j),
    ground (arith, v.allocated j a f),
  ),
)
