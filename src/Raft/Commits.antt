-- ===== src/Raft/Commits.antt =====
-- raft_server.cxx: committing an entry leaves the log, and the index that is to be committed, as they are.
pub mod Rounds
use cornerstone.Common.{ℕ, zero, suc, ◌≡◌, refl, List, [], ◌∷◌, Option, none, some, Bool}
use cornerstone.Codec.Entry.{LogValType, app_log, conf}
use cornerstone.Codec.Srv.{SrvConfig}
use cornerstone.Codec.Config.{ClusterConfig}
use cornerstone.Codec.Snapshot.{Snapshot}
use cornerstone.Log.{Log}
use cornerstone.Raft.Peers.{Peer}
use cornerstone.Raft.Server.{
  Server, M, Outcome, done, exited, thrown, PeerRef, member, joining, set_peer,
}
use cornerstone.Raft.Run.{final}
use cornerstone.Raft.Timers.{disable_hb, enable_hb_for_peer}
use cornerstone.Raft.Membership.{
  take_over_joining, add_peer, add_peers, drop_peer, remove_round, remove_srvs, reconfigure,
}
use cornerstone.Raft.Snapshots.{
  walk_round, walk_configs, last_config_of, config_at, create_snapshot, snapshot_and_compact,
  or_clear, clear_thrown,
}
use cornerstone.Raft.Committer.{commit_config, apply_typed, apply_entry, commit_entry}
use cornerstone.Raft.Kept.{Kept, Kept-then, kept_rules}

-- What bounds the loop.
abbrev pub pending : Server → ℕ × Log
pending s = (s.quick_commit_idx, s.log)

set_peer-pending :
    (r : PeerRef) (f : Peer → Peer) (s : Server) → pending (set_peer r f s) ≡ pending s
unfolding set_peer
set_peer-pending (member id) f s = refl
set_peer-pending joining f s = refl

disable_hb-Kept : (id : ℕ) → Kept pending (disable_hb id)
unfolding disable_hb
disable_hb-Kept id = search (kept_rules, refl, set_peer-pending) depth 30

enable_hb_for_peer-Kept : (r : PeerRef) (id : ℕ) → Kept pending (enable_hb_for_peer r id)
unfolding enable_hb_for_peer
enable_hb_for_peer-Kept r id = search (kept_rules, refl, set_peer-pending) depth 30

take_over_joining-Kept : (id : ℕ) (o : Option Peer) → Kept pending (take_over_joining id o)
unfolding take_over_joining
take_over_joining-Kept id none = search (kept_rules, refl) depth 30
take_over_joining-Kept id (some p) = search (kept_rules, refl, set_peer-pending) depth 30

add_peer-Kept : (c : SrvConfig) → Kept pending (add_peer c)
unfolding add_peer
add_peer-Kept c =
    search (kept_rules, refl, enable_hb_for_peer-Kept, take_over_joining-Kept) depth 30

add_peers-Kept : (cs : List SrvConfig) → Kept pending (add_peers cs)
unfolding add_peers
add_peers-Kept [] = search (kept_rules, refl) depth 30
add_peers-Kept (c ∷ cs) =
    Kept-then (add_peer c) (add_peers cs) (add_peer-Kept c) (add_peers-Kept cs)

drop_peer-Kept : (id : ℕ) → Kept pending (drop_peer id)
unfolding drop_peer
drop_peer-Kept id = search (kept_rules, refl, disable_hb-Kept) depth 30

remove_round-Kept :
    (config : ClusterConfig) (k : ℕ) (next : M Bool)
    → Kept pending next
    → Kept pending (remove_round config k next)
unfolding remove_round
remove_round-Kept config k next h = search (kept_rules, refl, drop_peer-Kept) depth 30

remove_srvs-Kept : (config : ClusterConfig) (ids : List ℕ) → Kept pending (remove_srvs config ids)
unfolding remove_srvs
remove_srvs-Kept config [] = search (kept_rules, refl) depth 30
remove_srvs-Kept config (id ∷ ids) =
    remove_round-Kept config id (remove_srvs config ids) (remove_srvs-Kept config ids)

reconfigure-Kept : (config : ClusterConfig) → Kept pending (reconfigure config)
unfolding reconfigure
reconfigure-Kept config = search (kept_rules, refl, add_peers-Kept, remove_srvs-Kept) depth 30

walk_round-Kept :
    (idx : ℕ) (c : ClusterConfig) (next : ClusterConfig → M ClusterConfig)
    → ((d : ClusterConfig) → Kept pending (next d))
    → Kept pending (walk_round idx c next)
unfolding walk_round
walk_round-Kept idx c next h = search (kept_rules, refl) depth 30

walk_configs-Kept : (fuel idx : ℕ) (c : ClusterConfig) → Kept pending (walk_configs fuel idx c)
unfolding walk_configs
walk_configs-Kept zero idx c = search (kept_rules, refl) depth 30
walk_configs-Kept (suc fuel) idx c =
    walk_round-Kept idx c (walk_configs fuel idx) (walk_configs-Kept fuel idx)

last_config_of-Kept : (o : Option Snapshot) → Kept pending (last_config_of o)
unfolding last_config_of
last_config_of-Kept none = search (kept_rules, refl) depth 30
last_config_of-Kept (some snp) = search (kept_rules, refl) depth 30

config_at-Kept : (idx : ℕ) → Kept pending (config_at idx)
unfolding config_at
config_at-Kept idx = search (kept_rules, refl, walk_configs-Kept, last_config_of-Kept) depth 30

create_snapshot-Kept : (idx : ℕ) → Kept pending (create_snapshot idx)
unfolding create_snapshot
create_snapshot-Kept idx = search (kept_rules, refl, config_at-Kept) depth 30

clear_thrown-pending :
    (o : Outcome (Unit {0})) → pending (final (clear_thrown o)) ≡ pending (final o)
unfolding clear_thrown
clear_thrown-pending (done a t) = refl
clear_thrown-pending (exited c t) = refl
clear_thrown-pending (thrown e t) = refl

or_clear-Kept : (m : M (Unit {0})) → Kept pending m → Kept pending (or_clear m)
unfolding or_clear
or_clear-Kept m h = record { at = λ s. rw (clear_thrown-pending (m s)) (h.at s) }

snapshot_and_compact-Kept : (idx : ℕ) → Kept pending (snapshot_and_compact idx)
unfolding snapshot_and_compact
snapshot_and_compact-Kept idx =
    search (kept_rules, refl, create_snapshot-Kept, or_clear-Kept) depth 30

commit_config-Kept : (c : ClusterConfig) → Kept pending (commit_config c)
unfolding commit_config
commit_config-Kept c = search (kept_rules, refl, reconfigure-Kept) depth 30

apply_typed-Kept : (idx : ℕ) (buf : List ℕ) (t : LogValType) → Kept pending (apply_typed idx buf t)
unfolding apply_typed
apply_typed-Kept idx buf app_log = search (kept_rules, refl, commit_config-Kept) depth 30
apply_typed-Kept idx buf conf = search (kept_rules, refl, commit_config-Kept) depth 30
apply_typed-Kept idx buf _ = search (kept_rules, refl, commit_config-Kept) depth 30

pub commit_entry-Kept : (idx : ℕ) → Kept pending (commit_entry idx)
unfolding commit_entry apply_entry
commit_entry-Kept idx =
    search (kept_rules, refl, apply_typed-Kept, snapshot_and_compact-Kept) depth 30
