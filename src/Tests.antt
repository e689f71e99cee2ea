-- ===== src/Tests.antt =====
-- Test data and the theorems of the development at concrete inputs.
pub mod Calls
pub mod Config
pub mod Process
pub mod Rpc
pub mod Threads
pub mod Stats
pub mod Registry
pub mod Clients
pub mod Forward
pub mod Logs
pub mod Commands
pub mod Servers
pub mod Sessions
pub mod Sizes
pub mod Messages
pub mod Pools
