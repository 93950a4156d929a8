-- ===== src/Signaling/Patch.antt =====
-- internal/signaling/handler.go: handleWHIPPatch, the ICE restart, and handleWHIPDelete, for requests that come one after another:
-- in the code the test of If-Match, the restart and the new ETag are sections of their own.
use streamcore_server.Base.{
  Bool, Text, [], codes, if◌then◌else◌, inl, inr, insert, is_empty, none, not, some, take, text_eq,
  ℕ, ◌*◌, ◌||◌, ◌⊎◌,
}
use streamcore_server.Signaling.Http.{
  Request, Response, http_error, Outcomes, accept_patch, ice_fragment_content_type,
}
use streamcore_server.Strings.{has_prefix}
use streamcore_server.Session.Manager.{Manager, write, get, remove}
use streamcore_server.Session.State
use streamcore_server.Ice.Exchange.{
  restart_ice, no_ice_credentials, negotiation_failed, RestartError,
}

abbrev pub max_ice_fragment_bytes : ℕ
max_ice_fragment_bytes = 64 * 1024

-- If-Match lets a request through: it is absent, any, or the tag of the current ICE session.
unfoldable pub matches : Text → Text → Bool
matches if_match etag = is_empty if_match || text_eq if_match (codes "*") || text_eq if_match etag

-- What the client is told of a restart of the session at `a`.
unfoldable pub restarted : Manager → Outcomes → ℕ → Text ⊎ RestartError → Manager × Response
restarted m o a outcome = elim outcome [
  | inr no_ice_credentials ↦ (
    m,
    http_error (accept_patch []) 405
        (codes "trickle ICE is not supported; send an ICE restart fragment"),
  )
  | inr negotiation_failed ↦ (m, http_error [] 500 (codes "failed to restart ICE"))
  | inr _ ↦ (m, http_error [] 409 (codes "session is not restartable"))
  | inl fragment ↦
      (let s = State.rotate_etag (m.heap a) o.new_tag in
        (
          record m { heap = write m.heap a s },
          record {
            status = 200;
            headers =
                insert (codes "ETag") s.etag
                  (insert (codes "Content-Type") ice_fragment_content_type []);
            body = fragment;
          },
        ))
]

-- RestartICE on the peer at `p` of the session at `a`.
unfoldable pub restart_peer : Manager → Outcomes → ℕ → ℕ → Text → Manager × Response
restart_peer m o a p body =
    restarted m o a (restart_ice o.connection ((m.heap a).arena p).is_closed body)

-- Once the session is found.
unfoldable pub patch_session : Manager → Outcomes → Request → Text → ℕ → Manager × Response
patch_session m o r id a =
    if not (matches r.if_match (m.heap a).etag)
    then (
      m,
      http_error (insert (codes "ETag") (m.heap a).etag []) 412
          (codes "ETag does not match the current ICE session"),
    )
    else (elim (State.get_peer (m.heap a) id) [
      | none ↦ (m, http_error [] 404 (codes "session has no peer"))
      | some p ↦ elim r.body [
        | none ↦ (m, http_error [] 400 (codes "failed to read ICE fragment"))
        | some body ↦ restart_peer m o a p (take max_ice_fragment_bytes body)
      ]
    ])

unfoldable pub handle_whip_patch : Manager → Outcomes → Request → Text → Manager × Response
handle_whip_patch m o r id =
    if not (has_prefix r.content_type ice_fragment_content_type)
    then (
      m,
      http_error (accept_patch []) 415
          (codes "Content-Type must be application/trickle-ice-sdpfrag"),
    )
    else (elim (get m id) [
      | none ↦ (m, http_error [] 404 (codes "unknown session"))
      | some a ↦ patch_session m o r id a
    ])

unfoldable pub handle_whip_delete : Manager → Outcomes → Text → Manager × Response
handle_whip_delete m o id = (remove m id o.now, record { status = 200; headers = []; body = [] })
