-- ===== src/Examples/Sessions.antt =====
-- A server with room for two sessions, and one call on it.
use streamcore_server.Base.{
  List, Text, [], arith, codes, false, if◌then◌else◌, insert, lookup, none, refl, size, some,
  text_eq, true, ◌+◌, ◌<◌, ◌∷◌, ◌≡◌, ◌≢◌, ◌≤◌,
}
use mathlib.Core.Option.{some-injective}
use streamcore_server.Session.Config.{Config, realtime_enabled}
use streamcore_server.Session.Manager.{Manager, new_manager}
use streamcore_server.Session.Manager
use streamcore_server.Session.State
use streamcore_server.Session.State.StaleClose.{stale_close, start_close_at, finish_close}
use streamcore_server.Session.Manager.Histories.{
  World, Reach, here, next, creates, mints, indexes, mint, enter_index, new_world, Issue,
}
use streamcore_server.Session.Manager.Histories.Sound.{Sound, Reach-Sound}
use streamcore_server.Session.Manager.Invariant.{
  Inv, IsLive, new_manager-Inv, get_or_create-Inv, issue_resume_token-Inv,
}
use streamcore_server.Session.Manager.Histories
use streamcore_server.Session.Manager.Tokens.{CanIssue, resume-issue_resume_token}
use streamcore_server.Session.Manager.Reaper.{reap_lem}
use streamcore_server.Session.Manager.Capacity.{IsFull}
use streamcore_server.Session.Connection.{
  new_peer, ConnectionState, connecting, connected, disconnected, failed,
}

abbrev pub small : Config
small = record { max_sessions = 2; session_grace_ms = 5; realtime_provider = [] }

abbrev pub name : Text
name = codes "s1"

abbrev pub token : Text
token = codes "t1"

-- One session, created at time 100.
abbrev pub one : Manager
one = (Manager.get_or_create (new_manager small) name 100).0

one-Inv : Inv one
one-Inv = get_or_create-Inv (new_manager small) name 100 (new_manager-Inv small)

one-IsLive : IsLive one 0
unfolding Manager.issue_resume_token Manager.get_or_create Manager.grace State.resumable
    State.rotate_resume_token realtime_enabled text_eq lookup new_manager size insert
    State.new_session
one-IsLive = refl

-- The same session with the resume token.
abbrev pub two : Manager
two = (Manager.issue_resume_token one 0 (some token)).0

fresh : (t : Text) → some token ≡ some t → (t ≢ []) × (lookup t one.resumable ≡ none)
unfolding Manager.issue_resume_token Manager.get_or_create Manager.grace State.resumable
    State.rotate_resume_token realtime_enabled text_eq lookup new_manager size insert
    State.new_session
fresh t e = (λ f. ground (arith, some-injective token t e), refl)

two-Inv : Inv two
two-Inv = issue_resume_token-Inv one 0 (some token) one-IsLive fresh one-Inv

-- The session is there, its token is minted, and a DELETE comes before the token is in the index.
abbrev world_one : World
world_one = record { manager = one; issues = []; minted = [] }

abbrev world_minted : World
world_minted = mint 0 token world_one

abbrev world_deleted : World
world_deleted = record world_minted { manager = Manager.remove world_minted.manager name 200 }

abbrev late : Issue
late = record { old = []; token = token; place = 0 }

abbrev world_late : World
world_late = record world_deleted { manager = enter_index late world_deleted.manager; issues = [] }

not_blank : token ≢ []
not_blank e = ground (arith, e)

deleted_first : Reach small world_late
unfolding new_world mint lookup Manager.get_or_create new_manager size insert State.new_session
deleted_first =
    next
      (next
        (next (next here (creates (new_world small) name 100))
          (mints world_one 0 token not_blank refl))
        (Histories.removes world_minted name 200))
      (indexes world_deleted 0 late refl)

can_issue : CanIssue one 0 token
unfolding Manager.issue_resume_token Manager.get_or_create Manager.grace State.resumable
    State.rotate_resume_token realtime_enabled text_eq lookup new_manager size insert
    State.new_session
can_issue = (one-Inv, refl, one-IsLive, ground arith, refl)

Reach-Sound_example : Sound world_late.manager world_late.minted
Reach-Sound_example = Reach-Sound small deleted_first

pub two-index : lookup token two.resumable ≡ some 0
unfolding Manager.issue_resume_token Manager.get_or_create Manager.grace State.resumable
    State.rotate_resume_token realtime_enabled text_eq lookup new_manager size insert
    State.new_session
two-index = refl

two-resumes : (Manager.resume two token 200).1 ≡ some 0
unfolding Manager.resume
two-resumes = rw two-index

resume-issue_resume_token_example :
    let q = (Manager.resume two token 200).0 in
    ((Manager.issue_resume_token one 0 (some token)).1 ≡ token)
    × ((Manager.resume two token 200).1 ≡ some 0)
    × ((q.heap 0).conv ≡ (one.heap 0).conv)
    × ((q.heap 0).resource_id ≡ (one.heap 0).resource_id)
    × ((q.heap 0).peers ≡ [])
    × ((Manager.resume q token 300).1 ≡ none)
resume-issue_resume_token_example = resume-issue_resume_token one 0 token 200 300 can_issue

CanIssue-again : CanIssue two 0 (codes "t2")
unfolding Manager.issue_resume_token Manager.get_or_create Manager.grace State.resumable
    State.rotate_resume_token realtime_enabled text_eq lookup new_manager size insert
    State.new_session
CanIssue-again = (two-Inv, refl, refl, ground arith, refl)

two-token : (two.heap 0).resume_token ≢ codes "t2"
unfolding Manager.issue_resume_token Manager.get_or_create Manager.grace State.resumable
    State.rotate_resume_token realtime_enabled text_eq lookup new_manager size insert
    State.new_session
two-token = ground arith

pub two-listed : lookup name two.sessions ≡ some 0
unfolding Manager.issue_resume_token Manager.get_or_create Manager.grace State.resumable
    State.rotate_resume_token realtime_enabled text_eq lookup new_manager size insert
    State.new_session
two-listed = refl

two-alone : (two.heap 0).peers ≡ []
unfolding Manager.issue_resume_token Manager.get_or_create Manager.grace State.resumable
    State.rotate_resume_token realtime_enabled text_eq lookup new_manager size insert
    State.new_session
two-alone = refl

two-idle : (two.heap 0).idle_since ≡ some 100
unfolding Manager.issue_resume_token Manager.get_or_create Manager.grace State.resumable
    State.rotate_resume_token realtime_enabled text_eq lookup new_manager size insert
    State.new_session
two-idle = refl

two-late : 100 + Manager.grace two ≤ 5_000_100
unfolding Manager.issue_resume_token Manager.get_or_create Manager.grace State.resumable
    State.rotate_resume_token realtime_enabled text_eq lookup new_manager size insert
    State.new_session
two-late = omega arith

one-free : lookup (codes "s2") one.sessions ≡ none
unfolding Manager.issue_resume_token Manager.get_or_create Manager.grace State.resumable
    State.rotate_resume_token realtime_enabled text_eq lookup new_manager size insert
    State.new_session
one-free = refl

one-room : ¬ IsFull one
unfolding Manager.issue_resume_token Manager.get_or_create Manager.grace State.resumable
    State.rotate_resume_token realtime_enabled text_eq lookup new_manager size insert
    State.new_session
one-room = λ f. omega (arith, f.1)

reap_lem_example :
    let q = Manager.reap two 5_000_100 in
    (lookup name q.sessions ≡ (if Manager.is_expired two 5_000_100 0 then none else some 0))
    × (Manager.is_expired two 5_000_100 0 ≡ true
        → ((q.heap 0).is_cancelled ≡ true) × ((t : Text) → lookup t q.resumable ≢ some 0))
    × (Manager.is_expired two 5_000_100 0 ≡ false → q.heap 0 ≡ two.heap 0)
reap_lem_example = reap_lem two 5_000_100 name 0 (two-Inv) two-listed

-- A session with its first peer.
abbrev on_call : State.Session
on_call = (State.add_peer (State.new_session name 100) name true).0

on_call-peers : on_call.peers ≡ (name, 0) ∷ []
unfolding State.add_peer State.new_session insert
on_call-peers = refl

on_call-peer :
    (0 < on_call.next_peer) × ((on_call.arena 0).is_closed ≡ false) × ((on_call.arena 0).id ≡ name)
unfolding State.add_peer State.new_session new_peer
on_call-peer = (omega arith, refl, refl)

stale_close_example :
    let t = (State.add_peer (State.evict_peers 200 (start_close_at on_call 0)) name true).0 in
    (State.get_peer t name ≡ some on_call.next_peer)
    × (t.idle_since ≡ none)
    × ((t.arena on_call.next_peer).is_closed ≡ false)
    × (State.get_peer (finish_close t 0 300) name ≡ none)
    × ((finish_close t 0 300).idle_since ≡ some 300)
    × (((finish_close t 0 300).arena on_call.next_peer).is_closed ≡ false)
stale_close_example =
    stale_close on_call name 0 200 300 on_call-peers on_call-peer.0 on_call-peer.1 on_call-peer.2

-- A blip, then the end.
abbrev states : List ConnectionState
states = connecting ∷ connected ∷ disconnected ∷ connected ∷ failed ∷ []
