-- ===== src/Session/Config.antt =====
-- The settings of internal/config/config.go that the session layer reads.
use streamcore_server.Base.{Bool, Text, [], codes, not, text_eq, ℕ, ◌&&◌}

pub record Config : Type 0 where
  -- server.max_sessions and server.session_grace_ms; 0 stands for every value that is not positive.
  pub max_sessions : ℕ
  pub session_grace_ms : ℕ
  -- realtime.provider
  pub realtime_provider : Text

unfoldable pub realtime_enabled : Config → Bool
realtime_enabled c =
    not (text_eq c.realtime_provider []) && not (text_eq c.realtime_provider (codes "none"))
