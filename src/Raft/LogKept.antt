-- ===== src/Raft/LogKept.antt =====
-- raft_server.cxx: sending entries and snapshots leaves the log, and the role of the server, as they are.
use cornerstone.Common.{ℕ, ◌≡◌, refl, none, some, Option}
use cornerstone.Log.{Log}
use cornerstone.Raft.Types.{SrvRole}
use cornerstone.Raft.Peers.{Peer}
use cornerstone.Raft.Server.{Server, PeerRef, member, joining, set_peer}
use cornerstone.Codec.Snapshot.{Snapshot}
use cornerstone.Raft.Replication.{
  term_for_log, term_of_snapshot, choose_snapshot, create_sync_snapshot_req,
  create_append_entries_req, request_append_entries_to, notify_peer, commit, request_one,
  request_append_entries,
}
use cornerstone.Raft.Kept.{Kept, kept_rules}

abbrev pub log : Server → Log × SrvRole
log s = (s.log, s.role)

set_peer-log : (r : PeerRef) (f : Peer → Peer) (s : Server) → log (set_peer r f s) ≡ log s
unfolding set_peer
set_peer-log (member id) f s = refl
set_peer-log joining f s = refl

term_of_snapshot-LogKept : (idx : ℕ) (o : Option Snapshot) → Kept log (term_of_snapshot idx o)
unfolding term_of_snapshot
term_of_snapshot-LogKept idx none = search (kept_rules, refl, set_peer-log) depth 30
term_of_snapshot-LogKept idx (some snp) = search (kept_rules, refl, set_peer-log) depth 30

term_for_log-LogKept : (idx : ℕ) → Kept log (term_for_log idx)
unfolding term_for_log
term_for_log-LogKept idx =
    search (kept_rules, refl, set_peer-log, term_of_snapshot-LogKept) depth 30

choose_snapshot-LogKept :
    (r : PeerRef) (idx : ℕ) (o : Option Snapshot) → Kept log (choose_snapshot r idx o)
unfolding choose_snapshot
choose_snapshot-LogKept r idx none = search (kept_rules, refl, set_peer-log) depth 30
choose_snapshot-LogKept r idx (some snp) = search (kept_rules, refl, set_peer-log) depth 30

create_sync_snapshot_req-LogKept :
    (r : PeerRef) (idx term commit_idx : ℕ)
    → Kept log (create_sync_snapshot_req r idx term commit_idx)
unfolding create_sync_snapshot_req
create_sync_snapshot_req-LogKept r idx term commit_idx =
    search (kept_rules, refl, set_peer-log, choose_snapshot-LogKept) depth 30

create_append_entries_req-LogKept : (r : PeerRef) → Kept log (create_append_entries_req r)
unfolding create_append_entries_req
create_append_entries_req-LogKept r =
    search (kept_rules, refl, set_peer-log, create_sync_snapshot_req-LogKept, term_for_log-LogKept)
      depth 30

request_append_entries_to-LogKept : (r : PeerRef) → Kept log (request_append_entries_to r)
unfolding request_append_entries_to
request_append_entries_to-LogKept r =
    search (kept_rules, refl, set_peer-log, create_append_entries_req-LogKept) depth 30

notify_peer-LogKept : (id : ℕ) → Kept log (notify_peer id)
unfolding notify_peer
notify_peer-LogKept id =
    search (kept_rules, refl, set_peer-log, request_append_entries_to-LogKept) depth 30

commit-LogKept : (idx : ℕ) → Kept log (commit idx)
unfolding commit
commit-LogKept idx = search (kept_rules, refl, set_peer-log, notify_peer-LogKept) depth 30

request_one-LogKept : (id : ℕ) → Kept log (request_one id)
unfolding request_one
request_one-LogKept id =
    search (kept_rules, refl, set_peer-log, request_append_entries_to-LogKept) depth 30

pub request_append_entries-LogKept : Kept log (request_append_entries)
unfolding request_append_entries
request_append_entries-LogKept =
    search (kept_rules, refl, set_peer-log, request_one-LogKept, commit-LogKept) depth 30
