-- ===== src/Examples/Requests.antt =====
-- Requests to the server of Examples.Sessions.
use streamcore_server.Ice.{
  parse_ice_fragment, rewrite_ice_for_restart, split_sdp_lines, split_lines, read_lines, read_line,
  kind_of, rewrite_from, print_lines, ice_fragment_from_sdp,
}
use mathlib.Core.Option.{join}
use streamcore_server.Base.{
  [], arith, codes, false, insert, lookup, refl, size, some, text_eq, true, ◌≡◌,
}
use streamcore_server.Examples.Sessions.{name, token, two, two-index, two-listed}
use streamcore_server.Session.Config.{realtime_enabled}
use streamcore_server.Session.Manager.{Manager, new_manager, write}
use streamcore_server.Session.Manager
use streamcore_server.Session.State
use streamcore_server.Ice.Exchange.{Connection, restart_ice}
use streamcore_server.Signaling.Http.{Request, Outcomes, post, patch, ice_fragment_content_type}
use streamcore_server.Signaling.Patch.{
  handle_whip_patch, matches, patch_session, restart_peer, restarted,
}
use streamcore_server.Signaling.Post.{handle_whip_post, resume_status_resumed, session_url}
use streamcore_server.Signaling.Handler.{Server}
use streamcore_server.Signaling.Handler.Resume.{post_resumes, IsAnswered}
use streamcore_server.Signaling.Handler.Restart.{handle_whip_patch_once}
use streamcore_server.Strings.{has_prefix, trim_prefix, trim_right_by}
use streamcore_server.Signaling.RateLimiter.{new_widget_rate_limiter}
use streamcore_server.Ice.{parse_ice_fragment}
use streamcore_server.Session.Connection.{new_peer}

-- A peer connection that accepts any offer.
abbrev connection : Connection
connection = record { remote_description = some (codes "v=0"); renegotiate = λ offer. some offer }

abbrev outcomes : Outcomes
outcomes = record {
  now = 300;
  session_id = codes "s9";
  new_tag = codes "g2";
  token = some (codes "t2");
  is_created = true;
  answer = λ offer. some (codes "answer");
  connection = connection;
}

abbrev resume_request : Request
resume_request = record {
  method = post;
  path = codes "/whip";
  origin = record { forwarded_for = codes "1.2.3.4"; real_ip = []; remote_addr = [] };
  content_type = codes "application/sdp";
  body = some (codes "offer");
  if_match = [];
  resume = token;
  direction = [];
  aec = [];
  verified_resource_id = [];
  resource_id_header = [];
}

answered : IsAnswered outcomes resume_request (codes "answer")
unfolding has_prefix
answered = record {
  accepted = refl;
  is_created = refl;
  offer = codes "offer";
  read = refl;
  given = ground arith;
  answers = refl;
}

post_resumes_example :
    let (q, w) = handle_whip_post two outcomes resume_request in
    (w.status ≡ 201)
    × (w.body ≡ codes "answer")
    × (lookup (codes "X-Resume-Status") w.headers ≡ some resume_status_resumed)
    × (lookup (codes "Location") w.headers ≡ some (session_url (two.heap 0).id))
    × (lookup (codes "ETag") w.headers ≡ some (State.quoted outcomes.new_tag))
    × ((q.heap 0).conv ≡ (two.heap 0).conv)
    × (State.peer_count (q.heap 0) ≡ 1)
    × (q.sessions ≡ two.sessions)
post_resumes_example =
    post_resumes two outcomes resume_request (codes "answer") 0 answered (ground arith) two-index

abbrev server : Server
server = record {
  manager = two;
  limiter = new_widget_rate_limiter 30 0;
  restart_limiter = new_widget_rate_limiter 60 0;
}

-- The session with a peer attached, as a restart needs it.
abbrev called : Manager
called = record two { heap = write two.heap 0 (State.add_peer (two.heap 0) name true).0 }

abbrev restart_request : Request
restart_request = record resume_request {
  method = patch;
  path = codes "/whip/s1";
  content_type = codes "application/trickle-ice-sdpfrag";
  body = some (codes "a=ice-ufrag:u\na=ice-pwd:p");
  if_match = codes "\"s1\"";
  resume = [];
}

is_fragment : has_prefix (codes "application/trickle-ice-sdpfrag") ice_fragment_content_type ≡ true
unfolding has_prefix
is_fragment = refl

called-listed : Manager.get called name ≡ some 0
unfolding Manager.get
called-listed = two-listed

called-restarts : (handle_whip_patch called outcomes restart_request name).1.status ≡ 200
unfolding Manager.issue_resume_token Manager.get_or_create State.resumable State.rotate_resume_token
    realtime_enabled text_eq lookup new_manager size insert State.new_session State.add_peer
    State.get_peer State.set_resource_id handle_whip_patch patch_session restart_peer restarted
    restart_ice has_prefix trim_prefix parse_ice_fragment rewrite_ice_for_restart split_sdp_lines
    split_lines trim_right_by read_lines read_line kind_of rewrite_from print_lines join
    State.rotate_etag Manager.get matches new_peer ice_fragment_from_sdp
called-restarts = refl

called-tag : (codes "\"s1\"") ≡ (called.heap 0).etag
unfolding Manager.issue_resume_token Manager.get_or_create State.resumable State.rotate_resume_token
    realtime_enabled text_eq lookup new_manager size insert State.new_session State.add_peer
called-tag = refl

called-old : matches (called.heap 0).etag (State.quoted outcomes.new_tag) ≡ false
unfolding Manager.issue_resume_token Manager.get_or_create State.resumable State.rotate_resume_token
    realtime_enabled text_eq lookup new_manager size insert State.new_session State.add_peer matches
called-old = refl

handle_whip_patch_once_example :
    let q = (handle_whip_patch called outcomes restart_request name).0 in
    ((handle_whip_patch q outcomes restart_request name).1.status ≡ 412)
    × ((handle_whip_patch q outcomes restart_request name).0 ≡ q)
handle_whip_patch_once_example =
    handle_whip_patch_once called outcomes outcomes restart_request restart_request name 0
      called-listed called-restarts is_fragment called-tag called-old
