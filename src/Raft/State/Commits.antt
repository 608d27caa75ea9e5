-- ===== src/Raft/State/Commits.antt =====
-- raft_server.cxx: snapshots and commits.
use cornerstone.Common.{ℕ, ◌≡◌, add64, zero, suc, refl, Bool, none, some, Option, List}
use cornerstone.Raft.Server.{M}
use cornerstone.Raft.Types.{ReqMsg}
use cornerstone.Codec.Entry.{LogEntry, LogValType, app_log, conf}
use cornerstone.Codec.Config.{ClusterConfig}
use cornerstone.Codec.Snapshot.{Snapshot, SnapshotSyncReq}
use cornerstone.Raft.Types.{set_commit_idx}
use cornerstone.Raft.Snapshots.{
  compact_log, halt_thrown, clear_thrown, or_halt, or_clear, finish_snapshot, adopt_snapshot,
  install_snapshot, handle_snapshot_sync_req, handle_install_snapshot_req, walk_round, walk_configs,
  last_config_of, config_at, create_snapshot, snapshot_and_compact, on_snapshot_completed,
}
use cornerstone.Raft.Committer.{
  commit_config, apply_typed, apply_entry, commit_entry, commit_one, commit_loop, commit_round,
}
use cornerstone.Raft.State.Sending.{restart_election_timer-Keeps, stop_election_timer-Keeps}
use cornerstone.Raft.State.Logs.{hear_leader-Keeps}
use cornerstone.Raft.State.Members.{reconfigure-Keeps}
use cornerstone.Raft.State.Keeps.{Keeps, Advances, keeps_rules}
use cornerstone.Raft.Types.{SrvState}
use cornerstone.Raft.Server.{Outcome, done, exited, thrown}
use cornerstone.Raft.Run.{final}
use cornerstone.Common.{arith}

pub set_commit_idx-Advances : (st : SrvState) (idx : ℕ) → Advances st (set_commit_idx st idx)
unfolding set_commit_idx
set_commit_idx-Advances st idx = record {
  term = ground arith;
  commit_idx = ground arith;
  voted_for = λ h. ground arith;
}

halt_thrown-final : {A : Type 0} (o : Outcome A) → (final (halt_thrown o)).state ≡ (final o).state
unfolding halt_thrown
halt_thrown-final (done a t) = refl
halt_thrown-final (exited c t) = refl
halt_thrown-final (thrown e t) = refl

clear_thrown-final : (o : Outcome (Unit {0})) → (final (clear_thrown o)).state ≡ (final o).state
unfolding clear_thrown
clear_thrown-final (done a t) = refl
clear_thrown-final (exited c t) = refl
clear_thrown-final (thrown e t) = refl

or_halt-Keeps : {A : Type 0} (m : M A) → Keeps m → Keeps (or_halt m)
unfolding or_halt
or_halt-Keeps m h = record { at = λ s. rw (halt_thrown-final (m s)) (h.at s) }

or_clear-Keeps : (m : M (Unit {0})) → Keeps m → Keeps (or_clear m)
unfolding or_clear
or_clear-Keeps m h = record { at = λ s. rw (clear_thrown-final (m s)) (h.at s) }

pub compact_log-Keeps : (idx : ℕ) → Keeps (compact_log idx)
unfolding compact_log
compact_log-Keeps idx = search (keeps_rules, refl) depth 30

pub adopt_snapshot-Keeps : (snp : Snapshot) → Keeps (adopt_snapshot snp)
unfolding adopt_snapshot
adopt_snapshot-Keeps snp = record { at = λ s. set_commit_idx-Advances s.state snp.last_log_idx }

pub finish_snapshot-Keeps : (snp : Snapshot) → Keeps (finish_snapshot snp)
unfolding finish_snapshot
finish_snapshot-Keeps snp =
    search
      (keeps_rules, refl, restart_election_timer-Keeps, reconfigure-Keeps, adopt_snapshot-Keeps)
      depth 30

pub install_snapshot-Keeps : (snp : Snapshot) → Keeps (install_snapshot snp)
unfolding install_snapshot
install_snapshot-Keeps snp =
    search (keeps_rules, refl, compact_log-Keeps, stop_election_timer-Keeps, finish_snapshot-Keeps)
      depth 30

pub handle_snapshot_sync_req-Keeps : (req : SnapshotSyncReq) → Keeps (handle_snapshot_sync_req req)
unfolding handle_snapshot_sync_req
handle_snapshot_sync_req-Keeps req =
    search (keeps_rules, refl, install_snapshot-Keeps, or_halt-Keeps) depth 30

pub handle_install_snapshot_req-Keeps : (req : ReqMsg) → Keeps (handle_install_snapshot_req req)
unfolding handle_install_snapshot_req
handle_install_snapshot_req-Keeps req =
    search (keeps_rules, refl, hear_leader-Keeps, handle_snapshot_sync_req-Keeps) depth 30

pub walk_round-Keeps :
    (idx : ℕ) (c : ClusterConfig) (next : ClusterConfig → M ClusterConfig)
    → ((d : ClusterConfig) → Keeps (next d))
    → Keeps (walk_round idx c next)
unfolding walk_round
walk_round-Keeps idx c next h = search (keeps_rules, refl) depth 30

pub walk_configs-Keeps : (fuel idx : ℕ) (c : ClusterConfig) → Keeps (walk_configs fuel idx c)
unfolding walk_configs
walk_configs-Keeps zero idx c = search (keeps_rules, refl) depth 30
walk_configs-Keeps (suc fuel) idx c =
    walk_round-Keeps idx c (walk_configs fuel idx) (walk_configs-Keeps fuel idx)

pub last_config_of-Keeps : (o : Option Snapshot) → Keeps (last_config_of o)
unfolding last_config_of
last_config_of-Keeps none = search (keeps_rules, refl) depth 30
last_config_of-Keeps (some snp) = search (keeps_rules, refl) depth 30

pub config_at-Keeps : (idx : ℕ) → Keeps (config_at idx)
unfolding config_at
config_at-Keeps idx = search (keeps_rules, refl, walk_configs-Keeps, last_config_of-Keeps) depth 30

pub create_snapshot-Keeps : (idx : ℕ) → Keeps (create_snapshot idx)
unfolding create_snapshot
create_snapshot-Keeps idx = search (keeps_rules, refl, config_at-Keeps) depth 30

pub snapshot_and_compact-Keeps : (idx : ℕ) → Keeps (snapshot_and_compact idx)
unfolding snapshot_and_compact
snapshot_and_compact-Keeps idx =
    search (keeps_rules, refl, create_snapshot-Keeps, or_clear-Keeps) depth 30

pub on_snapshot_completed-Keeps :
    (snp : Snapshot) (created : Option Bool) → Keeps (on_snapshot_completed snp created)
unfolding on_snapshot_completed
on_snapshot_completed-Keeps snp created = search (keeps_rules, refl, compact_log-Keeps) depth 30

pub commit_config-Keeps : (c : ClusterConfig) → Keeps (commit_config c)
unfolding commit_config
commit_config-Keeps c = search (keeps_rules, refl, reconfigure-Keeps) depth 30

pub apply_typed-Keeps : (idx : ℕ) (buf : List ℕ) (t : LogValType) → Keeps (apply_typed idx buf t)
unfolding apply_typed
apply_typed-Keeps idx buf app_log = search (keeps_rules, refl, commit_config-Keeps) depth 30
apply_typed-Keeps idx buf conf = search (keeps_rules, refl, commit_config-Keeps) depth 30
apply_typed-Keeps idx buf _ = search (keeps_rules, refl, commit_config-Keeps) depth 30

pub apply_entry-Keeps : (idx : ℕ) (e : LogEntry) → Keeps (apply_entry idx e)
unfolding apply_entry
apply_entry-Keeps idx e = search (keeps_rules, refl, apply_typed-Keeps) depth 30

pub commit_entry-Keeps : (idx : ℕ) → Keeps (commit_entry idx)
unfolding commit_entry
commit_entry-Keeps idx =
    search
      (keeps_rules, refl, apply_entry-Keeps, snapshot_and_compact-Keeps, set_commit_idx-Advances)
      depth 30

pub commit_one-Keeps : (idx : ℕ) (next : M (Unit {0})) → Keeps next → Keeps (commit_one idx next)
unfolding commit_one
commit_one-Keeps idx next h = search (keeps_rules, refl, commit_entry-Keeps) depth 30

pub commit_loop-Keeps : (fuel idx : ℕ) → Keeps (commit_loop fuel idx)
unfolding commit_loop
commit_loop-Keeps zero idx = search (keeps_rules, refl) depth 30
commit_loop-Keeps (suc fuel) idx =
    commit_one-Keeps idx (commit_loop fuel (add64 idx 1)) (commit_loop-Keeps fuel (add64 idx 1))

pub commit_round-Keeps : Keeps (commit_round)
unfolding commit_round
commit_round-Keeps = search (keeps_rules, refl, commit_loop-Keeps, or_halt-Keeps) depth 30
