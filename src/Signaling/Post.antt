-- ===== src/Signaling/Post.antt =====
-- internal/signaling/handler.go: handleWHIPPost, which opens a session or resumes one.
use streamcore_server.Base.{
  Bool, Map, Option, Text, [], codes, if◌then◌else◌, insert, is_empty, none, not, some, ℕ, ◌&&◌,
  ◌++◌,
}
use streamcore_server.Signaling.Http.{
  Request, Response, http_error, Outcomes, accept_patch, retry_after_header, resolve_resource_id,
}
use streamcore_server.Strings.{has_prefix}
use streamcore_server.Session.Manager.{Manager, write, get_or_create, issue_resume_token}
use streamcore_server.Session.Manager
use streamcore_server.Session.State

abbrev pub at_capacity_retry_after_s : ℕ
at_capacity_retry_after_s = 10

abbrev pub resume_status_new : Text
resume_status_new = codes "new"

abbrev pub resume_status_resumed : Text
resume_status_resumed = codes "resumed"

abbrev pub resume_status_expired : Text
resume_status_expired = codes "expired"

-- Once the token, if there is one, was looked up: the session that it led to, retagged, or a new one,
-- and the status that the client is told. There is no session at capacity.
unfoldable pub choose_from : Outcomes → Text → Manager × Option ℕ → Manager × Text × Option ℕ
choose_from o token (m, some a) = (
  record m { heap = write m.heap a (State.rotate_etag (m.heap a) o.new_tag) },
  resume_status_resumed,
  some a,
)
choose_from o token (m, none) =
    let (n, r) = get_or_create m o.session_id o.now in
    (n, if is_empty token then resume_status_new else resume_status_expired, r)

unfoldable pub choose_session : Manager → Outcomes → Text → Manager × Text × Option ℕ
unfolding choose_from
choose_session m o token = choose_from o token (Manager.resume m token o.now)

abbrev pub session_url : Text → Text
session_url id = codes "/whip/" ++ id

-- The headers of a 201. The map of headers holds a name once.
unfoldable pub created_headers : Text → Text → Text → Text → Map Text
created_headers id etag status token =
    let h = insert (codes "X-Resume-Status") status (
      accept_patch (
        insert (codes "ETag") etag (
          insert (codes "Location") (session_url id)
            (insert (codes "Content-Type") (codes "application/sdp") [])))) in
    if is_empty token then h else insert (codes "X-Resume-Token") token h

-- The 201, for the answer `sdp` of a session that is in the heap at `a`.
unfoldable pub created : Manager → Outcomes → Text → ℕ → Text → Manager × Response
created m o status a sdp =
    let (n, token) = issue_resume_token m a o.token in
    (
      n,
      record {
        status = 201;
        headers = created_headers (m.heap a).id (m.heap a).etag status token;
        body = sdp;
      },
    )

-- With the peer at `p` attached to the session: the outcome of HandleOffer decides.
unfoldable pub finish_offer : Manager → Outcomes → Text → ℕ → ℕ → Option Text → Manager × Response
finish_offer m o status a p none = (
  record m { heap = write m.heap a (State.close_peer o.now p (m.heap a)) },
  http_error [] 500 (codes "failed to handle offer"),
)
finish_offer m o status a p (some sdp) = created m o status a sdp

-- The outcome of AddPeer.
unfoldable pub attach_offer :
    Manager → Outcomes → Text → Text → ℕ → State.Session × Option (ℕ × Bool) → Manager × Response
attach_offer m o offer status a (s, none) =
    (record m { heap = write m.heap a s }, http_error [] 500 (codes "failed to create peer"))
attach_offer m o offer status a (s, some (p, _)) =
    finish_offer (record m { heap = write m.heap a s }) o status a p (o.answer offer)

-- From the choice of the session on.
unfoldable pub answer_offer : Manager → Outcomes → Text → Text → Text → ℕ → Manager × Response
answer_offer m o resource_id offer status a =
    let s = State.set_resource_id (m.heap a) resource_id in
    attach_offer m o offer status a (State.add_peer s s.id o.is_created)

-- Once the offer is read.
unfoldable pub open_from :
    Outcomes → Request → Text → Manager × Text × Option ℕ → Manager × Response
open_from o r offer (m, status, none) = (
  m,
  http_error (retry_after_header at_capacity_retry_after_s) 503
      (codes "server is at session capacity"),
)
open_from o r offer (m, status, some a) = answer_offer m o (resolve_resource_id r) offer status a

unfoldable pub open_session : Manager → Outcomes → Request → Text → Manager × Response
open_session m o r offer = open_from o r offer (choose_session m o r.resume)

unfoldable pub handle_whip_post : Manager → Outcomes → Request → Manager × Response
handle_whip_post m o r =
    if not (is_empty r.content_type) && not (has_prefix r.content_type (codes "application/sdp"))
    then (m, http_error [] 415 (codes "Content-Type must be application/sdp"))
    else (elim r.body [
      | none ↦ (m, http_error [] 400 (codes "failed to read offer"))
      | some offer ↦
          if is_empty offer
          then (m, http_error [] 400 (codes "empty SDP offer"))
          else open_session m o r offer
    ])
