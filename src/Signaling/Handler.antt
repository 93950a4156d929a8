-- ===== src/Signaling/Handler.antt =====
-- internal/signaling/handler.go: NewWHIPHandler, the WHIP endpoint. A request is handled with no other inside it;
-- what the code asks of packages outside the repository comes in as `Outcomes`.
pub mod Resume
pub mod Restart
pub mod Limits
use streamcore_server.Base.{Text, [], codes, if◌then◌else◌, insert, is_empty, ℕ}
use streamcore_server.Signaling.Post.{handle_whip_post}
use streamcore_server.Signaling.Patch.{handle_whip_patch, handle_whip_delete}
use streamcore_server.Session.Manager.{Manager, new_manager}
use streamcore_server.Session.Config.{Config}
use streamcore_server.Signaling.RateLimiter.{
  RateLimiter, new_widget_rate_limiter, allow, default_widget_rate_window,
}
use streamcore_server.Signaling.ClientIp.{client_ip}
use streamcore_server.Signaling.Http.{
  Request, Response, http_error, Outcomes, post, patch, options, other_method, delete_method,
  accept_patch, retry_after_header,
}
use streamcore_server.Strings.{trim_prefix}

pub record Server : Type 0 where
  pub manager : Manager
  pub limiter : RateLimiter
  pub restart_limiter : RateLimiter

abbrev pub default_whip_rate_limit : ℕ
default_whip_rate_limit = 30

abbrev pub default_restart_rate_limit : ℕ
default_restart_rate_limit = 60

unfoldable pub new_server : Config → Server
new_server cfg = record {
  manager = new_manager cfg;
  limiter = new_widget_rate_limiter default_whip_rate_limit default_widget_rate_window;
  restart_limiter = new_widget_rate_limiter default_restart_rate_limit default_widget_rate_window;
}

-- The path behind /whip and a slash.
unfoldable pub session_path : Text → Text
session_path path = trim_prefix (trim_prefix path (codes "/whip")) (codes "/")

abbrev pub url_required : Response
url_required = http_error [] 400 (codes "session URL required: /whip/{sessionId}")

-- NewWHIPHandler: dispatch by method, behind a limiter for each kind of costly request.
unfoldable pub handle : Server → Outcomes → Request → Server × Response
handle s o r = elim r.method [
  | options ↦ (
    s,
    record {
      status = 204;
      headers = accept_patch (insert (codes "Accept-Post") (codes "application/sdp") []);
      body = [];
    },
  )
  | post ↦
      (let (l, ok, retry) = allow s.limiter (client_ip r.origin) o.now in
        let (m, w) = handle_whip_post s.manager o r in
        if ok then (record s { limiter = l; manager = m }, w) else (
          record s { limiter = l },
          http_error (retry_after_header retry) 429 (codes "too many session requests"),
        ))
  | patch ↦
      (let id = session_path r.path in
        let (l, ok, retry) = allow s.restart_limiter (client_ip r.origin) o.now in
        let (m, w) = handle_whip_patch s.manager o r id in
        if is_empty id
        then (s, url_required)
        else if ok
        then (record s { restart_limiter = l; manager = m }, w)
        else (
          record s { restart_limiter = l },
          http_error (retry_after_header retry) 429 (codes "too many ICE restart requests"),
        ))
  | delete_method ↦
      (let id = session_path r.path in
        let (m, w) = handle_whip_delete s.manager o id in
        if is_empty id then (s, url_required) else (record s { manager = m }, w))
  | other_method ↦ (s, http_error [] 405 (codes "method not allowed"))
]
