-- ===== src/Tests.antt =====
-- The theorems at concrete states of a hub in memory.
pub mod World
pub mod Api
pub mod Tasks
pub mod Accounts
pub mod Sessions
pub mod App
pub mod Detection
pub mod Daemon
pub mod Registering
pub mod Screen
