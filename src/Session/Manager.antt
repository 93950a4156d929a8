-- ===== src/Session/Manager.antt =====
-- internal/session/manager.go: the sessions of the process and the index of resume tokens. Both maps
-- hold pointers, so a session is a place in the heap. A function is a call from its start to its end, with no other call
-- between its sections; Histories takes the sections apart.
pub mod Invariant
pub mod Reaper
pub mod Tokens
pub mod Capacity
pub mod Histories
use streamcore_server.Base.{
  Bool, List, Map, Option, Text, [], delete, false, if◌then◌else◌, insert, is_empty, leb, lookup,
  ltb, none, size, some, ℕ, ◌&&◌, ◌*◌, ◌+◌, ◌/◌, ◌==◌, ◌∷◌,
}
use streamcore_server.Session.Config.{Config}
use streamcore_server.Session.State.{Session}
use streamcore_server.Session.State

pub record Manager : Type 0 where
  pub cfg : Config
  pub heap : ℕ → Session
  pub next : ℕ
  pub sessions : Map ℕ
  pub resumable : Map ℕ

abbrev pub default_session_grace_ms : ℕ
default_session_grace_ms = 30_000

abbrev pub ms : ℕ
ms = 1_000_000

abbrev pub reap_interval_cap : ℕ
reap_interval_cap = 10_000 * ms

unfoldable pub new_manager : Config → Manager
new_manager cfg = record {
  cfg = cfg;
  heap = λ _. State.new_session [] 0;
  next = 0;
  sessions = [];
  resumable = [];
}

abbrev pub write : (ℕ → Session) → ℕ → Session → ℕ → Session
write h a s = λ b. if b == a then s else h b

unfoldable pub grace : Manager → ℕ
grace m =
    (if ltb 0 m.cfg.session_grace_ms then m.cfg.session_grace_ms else default_session_grace_ms) * ms

-- The index without a token; the empty text is no token.
abbrev pub without : Text → Map ℕ → Map ℕ
without token r = if is_empty token then r else delete token r

-- `token` is the outcome of newResumeToken. The empty text is the answer without a token.
unfoldable pub issue_resume_token : Manager → ℕ → Option Text → Manager × Text
issue_resume_token m a token =
    if State.resumable m.cfg
    then (let (s, r) = State.rotate_resume_token (m.heap a) token in
        elim r [
          | none ↦ (m, [])
          | some (old, current) ↦ (
            record m {
              heap = write m.heap a s;
              resumable = insert current a (without old m.resumable);
            },
            current,
          )
        ])
    else (m, [])

unfoldable pub resume : Manager → Text → ℕ → Manager × Option ℕ
resume m token now = if is_empty token then (m, none) else elim (lookup token m.resumable) [
  | none ↦ (m, none)
  | some a ↦ (
    record m {
      resumable = delete token m.resumable;
      heap = write m.heap a (State.evict_peers now (m.heap a));
    },
    some a,
  )
]

-- `none` is the refusal at capacity.
unfoldable pub get_or_create : Manager → Text → ℕ → Manager × Option ℕ
get_or_create m id now = elim (lookup id m.sessions) [
  | some a ↦ (m, some a)
  | none ↦
      if ltb 0 m.cfg.max_sessions && leb m.cfg.max_sessions (size m.sessions) then (m, none) else (
        record m {
          heap = write m.heap m.next (State.new_session id now);
          next = m.next + 1;
          sessions = insert id m.next m.sessions;
        },
        some m.next,
      )
]

unfoldable pub get : Manager → Text → Option ℕ
get m id = lookup id m.sessions

unfoldable pub drop_resume_token : ℕ → Manager → Manager
drop_resume_token a m = record m { resumable = without (m.heap a).resume_token m.resumable }

-- A session leaves the map, and its token the index.
unfoldable pub forget : Text → ℕ → Manager → Manager
unfolding drop_resume_token
forget id a m = drop_resume_token a (record m { sessions = delete id m.sessions })

unfoldable pub close_session : ℕ → ℕ → Manager → Manager
close_session now a m = record m { heap = write m.heap a (State.close now (m.heap a)) }

unfoldable pub remove : Manager → Text → ℕ → Manager
remove m id now = elim (lookup id m.sessions) [
  | none ↦ m
  | some a ↦ forget id a (close_session now a m)
]

-- Idle since before the grace period; a session with a peer has no such time.
unfoldable pub is_expired : Manager → ℕ → ℕ → Bool
is_expired m now a = elim (m.heap a).idle_since [
  | none ↦ false
  | some idle ↦ leb (idle + grace m) now
]

-- The sweep under the lock: the sessions that it takes out, and what is left.
unfoldable pub sweep_expired : ℕ → Map ℕ → Manager → Manager × List ℕ
sweep_expired now [] m = (m, [])
sweep_expired now ((id, a) ∷ rest) m =
    let expired = is_expired m now a in
    let (m', as') = sweep_expired now rest (if expired then forget id a m else m) in
    (m', if expired then a ∷ as' else as')

unfoldable pub close_sessions : ℕ → List ℕ → Manager → Manager
close_sessions now [] m = m
close_sessions now (a ∷ as') m = close_sessions now as' (close_session now a m)

unfoldable pub reap : Manager → ℕ → Manager
reap m now = let (m', expired) = sweep_expired now m.sessions m in close_sessions now expired m'

-- The period of the sweep that StartReaper starts.
unfoldable pub reap_interval : Manager → ℕ
reap_interval m =
    let third = grace m / 3 in
    let least = if ltb third (1000 * ms) then 1000 * ms else third in
    if ltb reap_interval_cap least then reap_interval_cap else least

unfoldable pub close_all : Manager → ℕ → Manager
close_all m now = record (close_sessions now (State.addresses m.sessions) m) {
  sessions = [];
  resumable = [];
}
