-- ===== src/Signaling/Http.antt =====
-- What the handler of internal/signaling/handler.go reads of a request and writes of a response.
-- The identity of the caller is internal/signaling/identity.go.
use streamcore_server.Base.{
  Bool, Map, Option, Text, [], codes, if◌then◌else◌, insert, is_empty, not, text_eq, ℕ,
}
use streamcore_server.Signaling.ClientIp.{Origin}
use streamcore_server.Ice.Exchange.{Connection}
use streamcore_server.Ice.Decimal.{format_uint}

-- r.Method; the last is every other method.
pub data Method : Type 0 where
  options post patch delete_method other_method : Method

pub record Request : Type 0 where
  pub method : Method
  pub path : Text
  pub origin : Origin
  pub content_type : Text
  -- The body; `none` if it cannot be read.
  pub body : Option Text
  pub if_match : Text
  -- The query parameters.
  pub resume : Text
  pub direction : Text
  pub aec : Text
  -- The value under resourceIDKey in the context, and the header X-StreamCore-Resource-Id.
  pub verified_resource_id : Text
  pub resource_id_header : Text

pub record Response : Type 0 where
  pub status : ℕ
  pub headers : Map Text
  pub body : Text

-- http.Error, without the headers that it sets itself.
abbrev pub http_error : Map Text → ℕ → Text → Response
http_error headers status message = record { status = status; headers = headers; body = message }

-- WithResourceID on a context that holds `old`, and ResourceIDFromContext of the result.
unfoldable pub with_resource_id : Text → Text → Text
with_resource_id old resource_id = if is_empty resource_id then old else resource_id

-- A verified claim beats the header.
unfoldable pub resolve_resource_id : Request → Text
resolve_resource_id r =
    if not (is_empty r.verified_resource_id) then r.verified_resource_id else r.resource_id_header

pub record PeerOptions : Type 0 where
  pub direction : Text
  pub aec_absent : Bool

-- AddPeer hands them on to the pipeline of the call, and reads neither.
unfoldable pub peer_options_from : Request → PeerOptions
peer_options_from r = record { direction = r.direction; aec_absent = text_eq r.aec (codes "none") }

-- One request's share of the outside: the clock, the UUIDs of a new session and of a new ICE
-- generation, newResumeToken, whether peer.New succeeds, the answer of HandleOffer to an offer, and
-- the connection of the peer that an ICE restart is for.
pub record Outcomes : Type 0 where
  pub now : ℕ
  pub session_id : Text
  pub new_tag : Text
  pub token : Option Text
  pub is_created : Bool
  pub answer : Text → Option Text
  pub connection : Connection

abbrev pub ice_fragment_content_type : Text
ice_fragment_content_type = codes "application/trickle-ice-sdpfrag"

abbrev pub accept_patch : Map Text → Map Text
accept_patch h = insert (codes "Accept-Patch") ice_fragment_content_type h

abbrev pub retry_after_header : ℕ → Map Text
retry_after_header seconds = insert (codes "Retry-After") (format_uint seconds) []
