-- ===== src/Daemon.antt =====
-- agent-daemon/src: the daemon that runs a command for each task on a user's server.
pub mod Patterns
pub mod Approvals
pub mod Failures
pub mod Command
pub mod State
pub mod Runner
pub mod Client
pub mod Config
pub mod Registration
pub mod Link
