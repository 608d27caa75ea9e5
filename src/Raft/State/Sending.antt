-- ===== src/Raft/State/Sending.antt =====
-- raft_server.cxx: the timers and the requests that are sent.
use cornerstone.Common.{ℕ, refl, none, some, Option}
use cornerstone.Raft.Server.{PeerRef}
use cornerstone.Codec.Snapshot.{Snapshot}
use cornerstone.Raft.Timers.{
  restart_election_timer, stop_election_timer, disable_hb, enable_hb_for_peer, become_follower,
}
use cornerstone.Raft.Replication.{
  term_for_log, term_of_snapshot, choose_snapshot, create_sync_snapshot_req,
  create_append_entries_req, request_append_entries_to, notify_peer, commit, request_one,
  request_append_entries,
}
use cornerstone.Raft.State.Keeps.{Keeps, keeps_rules}

pub restart_election_timer-Keeps : Keeps (restart_election_timer)
unfolding restart_election_timer
restart_election_timer-Keeps = search (keeps_rules, refl) depth 30

pub stop_election_timer-Keeps : Keeps (stop_election_timer)
unfolding stop_election_timer
stop_election_timer-Keeps = search (keeps_rules, refl) depth 30

pub disable_hb-Keeps : (id : ℕ) → Keeps (disable_hb id)
unfolding disable_hb
disable_hb-Keeps id = search (keeps_rules, refl) depth 30

pub enable_hb_for_peer-Keeps : (r : PeerRef) (id : ℕ) → Keeps (enable_hb_for_peer r id)
unfolding enable_hb_for_peer
enable_hb_for_peer-Keeps r id = search (keeps_rules, refl) depth 30

pub become_follower-Keeps : Keeps (become_follower)
unfolding become_follower
become_follower-Keeps =
    search (keeps_rules, refl, disable_hb-Keeps, restart_election_timer-Keeps) depth 30

pub term_of_snapshot-Keeps : (idx : ℕ) (o : Option Snapshot) → Keeps (term_of_snapshot idx o)
unfolding term_of_snapshot
term_of_snapshot-Keeps idx none = search (keeps_rules, refl) depth 30
term_of_snapshot-Keeps idx (some snp) = search (keeps_rules, refl) depth 30

pub term_for_log-Keeps : (idx : ℕ) → Keeps (term_for_log idx)
unfolding term_for_log
term_for_log-Keeps idx = search (keeps_rules, refl, term_of_snapshot-Keeps) depth 30

pub choose_snapshot-Keeps :
    (r : PeerRef) (idx : ℕ) (o : Option Snapshot) → Keeps (choose_snapshot r idx o)
unfolding choose_snapshot
choose_snapshot-Keeps r idx none = search (keeps_rules, refl) depth 30
choose_snapshot-Keeps r idx (some snp) = search (keeps_rules, refl) depth 30

pub create_sync_snapshot_req-Keeps :
    (r : PeerRef) (idx term commit_idx : ℕ) → Keeps (create_sync_snapshot_req r idx term commit_idx)
unfolding create_sync_snapshot_req
create_sync_snapshot_req-Keeps r idx term commit_idx =
    search (keeps_rules, refl, choose_snapshot-Keeps) depth 30

pub create_append_entries_req-Keeps : (r : PeerRef) → Keeps (create_append_entries_req r)
unfolding create_append_entries_req
create_append_entries_req-Keeps r =
    search (keeps_rules, refl, create_sync_snapshot_req-Keeps, term_for_log-Keeps) depth 30

pub request_append_entries_to-Keeps : (r : PeerRef) → Keeps (request_append_entries_to r)
unfolding request_append_entries_to
request_append_entries_to-Keeps r =
    search (keeps_rules, refl, create_append_entries_req-Keeps) depth 30

pub notify_peer-Keeps : (id : ℕ) → Keeps (notify_peer id)
unfolding notify_peer
notify_peer-Keeps id = search (keeps_rules, refl, request_append_entries_to-Keeps) depth 30

pub commit-Keeps : (idx : ℕ) → Keeps (commit idx)
unfolding commit
commit-Keeps idx = search (keeps_rules, refl, notify_peer-Keeps) depth 30

pub request_one-Keeps : (id : ℕ) → Keeps (request_one id)
unfolding request_one
request_one-Keeps id = search (keeps_rules, refl, request_append_entries_to-Keeps) depth 30

pub request_append_entries-Keeps : Keeps (request_append_entries)
unfolding request_append_entries
request_append_entries-Keeps = search (keeps_rules, refl, request_one-Keeps, commit-Keeps) depth 30
