-- ===== src/Session/Connection.antt =====
-- internal/peer/peer.go: the life of one peer connection. The WebRTC stack below it is represented
-- by the states that it reports.
pub mod Recovery
use streamcore_server.Base.{Bool, Option, Text, false, if◌then◌else◌, none, some, true}

-- webrtc.PeerConnectionState
pub data ConnectionState : Type 0 where
  fresh connecting connected disconnected failed closed : ConnectionState

pub record Peer : Type 0 where
  pub id : Text
  pub is_closed : Bool
  pub is_cancelled : Bool
  pub is_disconnected : Bool

-- What a state change makes the peer do, beside its own flags.
pub data Reaction : Type 0 where
  announce_reconnecting announce_connected start_close no_reaction : Reaction

unfoldable pub new_peer : Text → Peer
new_peer id = record { id = id; is_closed = false; is_cancelled = false; is_disconnected = false }

unfoldable pub is_terminal_state : ConnectionState → Bool
is_terminal_state failed = true
is_terminal_state closed = true
is_terminal_state _ = false

unfoldable pub mark_disconnected : Peer → Peer
mark_disconnected p = record p { is_disconnected = true }

-- The flag as it was, and the flag cleared.
unfoldable pub clear_disconnected : Peer → Peer × Bool
clear_disconnected p = (record p { is_disconnected = false }, p.is_disconnected)

-- The callback given to OnConnectionStateChange.
unfoldable pub on_state_change : Peer → ConnectionState → Peer × Reaction
unfolding mark_disconnected clear_disconnected is_terminal_state
on_state_change p disconnected = (mark_disconnected p, announce_reconnecting)
on_state_change p connected =
    let (q, was) = clear_disconnected p in (q, if was then announce_connected else no_reaction)
on_state_change p s = (p, if is_terminal_state s then start_close else no_reaction)

-- Close up to the call of OnClose: the flag is taken at once, and the caller goes on only if it
-- was the first to take it. The teardown of the connection stands between the two halves.
unfoldable pub begin_close : Peer → Option Peer
begin_close p =
    if p.is_closed then none else some (record p { is_closed = true; is_cancelled = true })
