-- ===== src/Plugin.antt =====
-- Package internal/plugin: the gate that a tool call passes.
pub mod Confirm
pub mod Manifest
pub mod Result
pub mod Dispatch
pub mod Manager
pub mod Host
pub mod Callbacks
pub mod Skills
pub mod External
