-- ===== src/Plugin/Host.antt =====
-- internal/plugin/external.go: a plugin's process. `Restart` is its recovery, and `Calls` the requests that
-- share its pipe. Starting a process, building it, and its signals are the operating system's.
pub mod Restart
pub mod Calls
