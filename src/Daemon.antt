-- ===== src/Daemon.antt =====
-- src/simplecc/simplecc_daemon.rs: the daemon's requests and their handlers, and the loop of `serve`.
mod Tests
pub mod Request
pub mod Handler
pub mod Documents
pub mod Lifecycle
pub mod Lookups
pub mod Hierarchies
pub mod Whole
pub mod Edits
pub mod FileRename
pub mod Handle
pub mod Shared
pub mod Serve
pub mod Answered
pub mod Paths
pub mod Replies
pub mod Due
pub mod Kept
pub mod Settled
pub mod Acts
pub mod Goes
pub mod Accepts
pub mod Order
pub mod Calls
pub mod Renames
