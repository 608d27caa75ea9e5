-- ===== src/Raft.antt =====
-- raft_server.hxx and raft_server.cxx, with peer.hxx and the messages.
pub mod Types
pub mod Params
pub mod Peers
pub mod Server
pub mod Timers
pub mod Replication
pub mod Election
pub mod Append
pub mod Responses
pub mod Membership
pub mod Joining
pub mod Snapshots
pub mod Extended
pub mod Dispatch
pub mod Committer
pub mod Run
pub mod Start
pub mod State
pub mod Votes
pub mod StaleVotes
pub mod Loops
pub mod Stored
pub mod Medians
pub mod Backoff
pub mod Slices
pub mod Stale
pub mod Removal
pub mod Heartbeats
pub mod Kept
pub mod LogKept
pub mod Places
pub mod Members
pub mod Commits
pub mod Client
