-- ===== src/Raft/State.antt =====
-- raft_server.cxx: what the methods do to the persistent state, by their parts.
pub mod Keeps
pub mod Sending
pub mod Logs
pub mod Members
pub mod Terms
pub mod Commits
pub mod Runs
