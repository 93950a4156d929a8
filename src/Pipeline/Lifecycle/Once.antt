-- ===== src/Pipeline/Lifecycle/Once.antt =====
-- internal/pipeline/lifecycle.go: which completion events are made, and which reach the plugins.
use streamcore_server.Pipeline.Lifecycle.{Lifecycle}
