-- ===== src/Session/State.antt =====
-- internal/session/session.go: one session, its peers and its credentials. A peer is a place in the
-- session's arena, as the source holds pointers; the map names the peers that are attached. Each
-- function that takes the mutex is one step, and the time is an argument.
pub mod Eviction
pub mod StaleClose
use streamcore_server.Base.{
  Bool, List, Map, Option, Text, [], delete, false, if◌then◌else◌, insert, is_empty, is_some,
  lookup, none, not, size, some, true, ℕ, ◌++◌, ◌+◌, ◌==◌, ◌∷◌,
}
use streamcore_server.Session.Connection.{Peer, new_peer, begin_close}
use streamcore_server.Session.Conversation.{ConversationState, new_conversation_state}
use streamcore_server.Session.Config.{Config, realtime_enabled}

pub record Session : Type 0 where
  pub id : Text
  pub is_cancelled : Bool
  pub peers : Map ℕ
  pub arena : ℕ → Peer
  pub next_peer : ℕ
  pub idle_since : Option ℕ
  pub etag : Text
  pub conv : Option ConversationState
  pub resume_token : Text
  pub resource_id : Text

abbrev pub quoted : Text → Text
quoted t = b'"' ∷ (t ++ b'"' ∷ [])

unfoldable pub new_session : Text → ℕ → Session
new_session id now = record {
  id = id;
  is_cancelled = false;
  peers = [];
  arena = λ _. new_peer [];
  next_peer = 0;
  idle_since = some now;
  etag = quoted id;
  conv = none;
  resume_token = [];
  resource_id = [];
}

-- The identity is bound once: an empty one is no identity, and later calls are ignored.
unfoldable pub set_resource_id : Session → Text → Session
set_resource_id s r =
    if is_empty r then s else if is_empty s.resource_id then record s { resource_id = r } else s

-- A write to the arena.
abbrev pub place : (ℕ → Peer) → ℕ → Peer → ℕ → Peer
place f a p = λ b. if b == a then p else f b

-- `created` is whether peer.New succeeded. The result tells the place of the peer, and whether the
-- conversation was there before it.
unfoldable pub add_peer : Session → Text → Bool → Session × Option (ℕ × Bool)
add_peer s peer_id created =
    if created
    then (
      record s {
        arena = place s.arena s.next_peer (new_peer peer_id);
        next_peer = s.next_peer + 1;
        peers = insert peer_id s.next_peer s.peers;
        idle_since = none;
      },
      some (s.next_peer, is_some s.conv),
    )
    else (s, none)

-- The conversation is built on first use; `client` is what llm.NewClient would return.
unfoldable pub conversation : Config → Option ℕ → Session → Session × Option ConversationState
conversation cfg client s = elim s.conv [
  | some c ↦ (s, some c)
  | none ↦ elim (new_conversation_state (realtime_enabled cfg) client s.id) [
    | none ↦ (s, none)
    | some c ↦ (record s { conv = some c }, some c)
  ]
]

unfoldable pub get_peer : Session → Text → Option ℕ
get_peer s peer_id = lookup peer_id s.peers

unfoldable pub remove_peer : Session → Text → ℕ → Session
remove_peer s peer_id now =
    let rest = delete peer_id s.peers in
    record s { peers = rest; idle_since = if size rest == 0 then some now else s.idle_since }

unfoldable pub peer_count : Session → ℕ
peer_count s = size s.peers

-- `new_tag` is the UUID of the new ICE generation.
unfoldable pub rotate_etag : Session → Text → Session
rotate_etag s new_tag = record s { etag = quoted new_tag }

unfoldable pub resumable : Config → Bool
resumable cfg = not (realtime_enabled cfg)

-- `token` is the outcome of newResumeToken, `none` for its error. The result is the token before.
unfoldable pub rotate_resume_token : Session → Option Text → Session × Option (Text × Text)
rotate_resume_token s none = (s, none)
rotate_resume_token s (some token) =
    (record s { resume_token = token }, some (s.resume_token, token))

-- Peer.Close in one go: the second half is the OnClose that AddPeer set.
unfoldable pub close_peer : ℕ → ℕ → Session → Session
close_peer now a s = elim (begin_close (s.arena a)) [
  | none ↦ s
  | some p ↦ remove_peer (record s { arena = place s.arena a p }) p.id now
]

unfoldable pub close_peers : ℕ → List ℕ → Session → Session
close_peers now [] s = s
close_peers now (a ∷ as') s = close_peers now as' (close_peer now a s)

abbrev pub addresses : Map ℕ → List ℕ
addresses [] = []
addresses ((_, a) ∷ m) = a ∷ addresses m

-- The map is emptied before any peer is closed.
unfoldable pub evict_peers : ℕ → Session → Session
evict_peers now s = close_peers now (addresses s.peers) (record s { peers = [] })

unfoldable pub close : ℕ → Session → Session
close now s = evict_peers now (record s { is_cancelled = true })
