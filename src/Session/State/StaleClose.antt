-- ===== src/Session/State/StaleClose.antt =====
-- A close that was under way when its client resumed.
use streamcore_server.Base.{
  Text, [], arith, delete, false, insert, lookup, none, refl, size, some, text_eq_self, true, ℕ,
  ◌<◌, ◌∷◌, ◌≡◌,
}
use streamcore_server.Session.Connection.{begin_close, new_peer}
use streamcore_server.Session.State.{
  Session, close_peer, evict_peers, remove_peer, add_peer, get_peer, place, close_peers,
}

-- The peer at `a` begins to close; its OnClose runs `remove_peer` later.
pub start_close_at : Session → ℕ → Session
start_close_at s a = elim (begin_close (s.arena a)) [
  | none ↦ s
  | some p ↦ record s { arena = place s.arena a p }
]

-- The OnClose at the end of a close, which AddPeer set: it goes by the peer's name.
pub finish_close : Session → ℕ → ℕ → Session
finish_close s a now = remove_peer s (s.arena a).id now

-- The session between the eviction and the new peer.
abbrev detached : Session → ℕ → Session
detached s a = record s {
  arena = place s.arena a (record (s.arena a) { is_closed = true; is_cancelled = true });
  peers = [];
}

-- Evicting a peer that already closes only empties the map: its close is a no-op.
evict-started :
    (s : Session) (name : Text) (a now : ℕ)
    → s.peers ≡ (name, a) ∷ []
    → (s.arena a).is_closed ≡ false
    → evict_peers now (start_close_at s a) ≡ detached s a
unfolding start_close_at evict_peers close_peers close_peer begin_close
evict-started s name a now e still = ground arith

attach-detach :
    (s : Session) (name : Text) (late : ℕ)
    → s.peers ≡ []
    → let t = (add_peer s name true).0 in
      (get_peer t name ≡ some s.next_peer)
      × (t.idle_since ≡ none)
      × ((t.arena s.next_peer).is_closed ≡ false)
      × (get_peer (remove_peer t name late) name ≡ none)
      × ((remove_peer t name late).idle_since ≡ some late)
      × (((remove_peer t name late).arena s.next_peer).is_closed ≡ false)
unfolding add_peer get_peer remove_peer lookup insert delete size new_peer
attach-detach s name late e = ground (arith, text_eq_self name)

finish-remove :
    (s : Session) (name : Text) (a late : ℕ)
    → a < s.next_peer
    → (s.arena a).id ≡ name
    → finish_close (add_peer s name true).0 a late ≡ remove_peer (add_peer s name true).0 name late
unfolding finish_close add_peer
finish-remove s name a late h n = ground arith

-- A session with one peer, attached under the name that every peer of the session has. Its
-- transport fails and its close begins; the client resumes, so the session evicts its peers and
-- attaches a new one under the same name; then the OnClose of the old peer runs. The new peer is
-- attached before that, and detached by it: the session counts as idle while its caller is on.
pub stale_close :
    (s : Session) (name : Text) (a evicted late : ℕ)
    → s.peers ≡ (name, a) ∷ []
    → a < s.next_peer
    → (s.arena a).is_closed ≡ false
    → (s.arena a).id ≡ name
    → let t = (add_peer (evict_peers evicted (start_close_at s a)) name true).0 in
      (get_peer t name ≡ some s.next_peer)
      × (t.idle_since ≡ none)
      × ((t.arena s.next_peer).is_closed ≡ false)
      × (get_peer (finish_close t a late) name ≡ none)
      × ((finish_close t a late).idle_since ≡ some late)
      × (((finish_close t a late).arena s.next_peer).is_closed ≡ false)
stale_close s name a evicted late e h still n = rw (evict-started s name a evicted e still) (
    rw (finish-remove (detached s a) name a late h (ground arith))
      (attach-detach (detached s a) name late refl))
