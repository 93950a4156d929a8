-- ===== src/Session/Connection/Recovery.antt =====
-- What a client is told about its transport, over any sequence of state changes.
use streamcore_server.Base.{
  Bool, List, Text, [], arith, false, if◌then◌else◌, refl, true, ℕ, ◌+◌, ◌∷◌, ◌≡◌, ◌≤◌,
}
use streamcore_server.Session.Connection.{
  announce_connected, announce_reconnecting, start_close, Peer, ConnectionState, Reaction, new_peer,
  on_state_change, is_terminal_state,
}

unfoldable pub run_states : Peer → List ConnectionState → Peer × List Reaction
run_states p [] = (p, [])
run_states p (s ∷ ss) =
    let (q, r) = on_state_change p s in let (q', rs) = run_states q ss in (q', r ∷ rs)

abbrev pub is_recovery : Reaction → Bool
is_recovery announce_connected = true
is_recovery _ = false

abbrev pub is_drop : Reaction → Bool
is_drop announce_reconnecting = true
is_drop _ = false

-- How often a test holds.
abbrev pub count_if {ℓ} : {A : Type ℓ} → (A → Bool) → List A → ℕ
count_if p [] = 0
count_if p (x ∷ xs) = (if p x then 1 else 0) + count_if p xs

abbrev pub closes : Reaction → Bool
closes start_close = true
closes _ = false

-- The peer is told to close exactly as often as a state says that the connection failed or was
-- closed: never because it is merely disconnected.
pub run_states-closes :
    (p : Peer) (ss : List ConnectionState)
    → count_if closes (run_states p ss).1 ≡ count_if is_terminal_state ss
unfolding run_states on_state_change
run_states-closes p [] = refl
run_states-closes p (s ∷ ss) = ground (arith, run_states-closes (on_state_change p s).0 ss)

recoveries_owed :
    (p : Peer) (ss : List ConnectionState)
    → count_if is_recovery (run_states p ss).1
      ≤ count_if is_drop (run_states p ss).1 + (if p.is_disconnected then 1 else 0)
unfolding run_states on_state_change
recoveries_owed p [] = omega arith
recoveries_owed p (s ∷ ss) = ground (arith, recoveries_owed (on_state_change p s).0 ss)

-- A recovery is announced at most once for each loss that was announced, so the first connection of
-- a new peer is never announced as one.
pub run_states_recoveries :
    (id : Text) (ss : List ConnectionState)
    → count_if is_recovery (run_states (new_peer id) ss).1
      ≤ count_if is_drop (run_states (new_peer id) ss).1
unfolding new_peer
run_states_recoveries id ss = omega (arith, recoveries_owed (new_peer id) ss)
