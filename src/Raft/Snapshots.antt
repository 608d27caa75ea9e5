-- ===== src/Raft/Snapshots.antt =====
-- raft_server.cxx: snapshots that this server takes in, and those that it makes.
use cornerstone.Common.{
  ℕ, zero, suc, ◌+◌, length, Bool, true, false, not, ◌&&◌, Option, none, some, ltb, leb, ◌==◌,
  if◌then◌else◌, add64, sub64, to_ulong, minus_one,
}
use cornerstone.Codec.Entry.{LogValType, snp_sync_req}
use cornerstone.Codec.Config
use cornerstone.Codec.Config.{ClusterConfig}
use cornerstone.Codec.Snapshot.{Snapshot, SnapshotSyncReq, deserialize_req}
use cornerstone.Log
use cornerstone.Raft.Types.{MsgType, ReqMsg, RespMsg, resp_msg, accept, set_commit_idx}
use cornerstone.Raft.Server.{
  Server, M, Outcome, done, exited, thrown, ◌>>=◌, ◌>>◌, on_some, pure, gets, modify, emit, when,
  halt, lift, deref, save_state, save_config, sm_save_snapshot_data, sm_apply_snapshot,
  sm_create_snapshot, is_follower,
}
use cornerstone.Raft.Timers.{restart_election_timer, stop_election_timer}
use cornerstone.Raft.Append.{hear_leader}
use cornerstone.Raft.Membership.{reconfigure, checked_entry, front}

-- `log_store_->compact`: false, and nothing changed, where the backup files cannot be opened.
unfoldable pub compact_log : ℕ → M Bool
compact_log last_log_index = do
  s ← gets (λ s. s)
  log ← lift (Log.compact s.log last_log_index)
  if s.host.compact_files then (do modify (λ t. record t { log = log }); pure true) else pure false

unfoldable pub halt_thrown : {A : Type 0} → Outcome A → Outcome A
halt_thrown (done a t) = done a t
halt_thrown (exited c t) = exited c t
halt_thrown (thrown e t) = halt minus_one minus_one t

-- `catch (...)` that ends the process.
unfoldable pub or_halt : {A : Type 0} → M A → M A
or_halt m s = halt_thrown (m s)

-- The commit indexes after a snapshot.
unfoldable pub adopt_snapshot : Snapshot → M (Unit {0})
adopt_snapshot snp = modify (λ s. record s {
  state = set_commit_idx s.state snp.last_log_idx;
  quick_commit_idx = snp.last_log_idx;
})

-- The server goes on from the end of a snapshot that the state machine has taken.
unfoldable pub finish_snapshot : Snapshot → M Bool
finish_snapshot snp = do
  reconfigure snp.last_config
  config ← gets (λ s. s.config)
  emit (save_config config)
  adopt_snapshot snp
  st ← gets (λ s. s.state)
  emit (save_state st)
  restart_election_timer
  pure true

-- The last block is in: the log makes room, the state machine takes the snapshot, and the server
-- goes on from its end.
unfoldable pub install_snapshot : Snapshot → M Bool
install_snapshot snp = do
  role ← gets (λ s. s.role)
  if not (is_follower role) then halt minus_one minus_one else do
    compacted ← compact_log snp.last_log_idx
    if not compacted then pure false else do
      stop_election_timer
      emit (sm_apply_snapshot snp)
      applied ← gets (λ s. s.host.apply_snapshot snp)
      if not applied then halt minus_one minus_one else finish_snapshot snp

unfoldable pub handle_snapshot_sync_req : SnapshotSyncReq → M Bool
handle_snapshot_sync_req req = or_halt (do
  emit (sm_save_snapshot_data req.snp req.offset req.data_bytes)
  if req.done then install_snapshot req.snp else pure true)

abbrev pub is_snp_sync_req : LogValType → Bool
is_snp_sync_req snp_sync_req = true
is_snp_sync_req _ = false

unfoldable pub handle_install_snapshot_req : ReqMsg → M RespMsg
handle_install_snapshot_req req = do
  s ← gets (λ s. s)
  when (req.term == s.state.term && not s.catching_up) hear_leader
  s ← gets (λ s. s)
  let resp = resp_msg s.state.term MsgType.install_snapshot_response s.id req.src 0
  if not s.catching_up && ltb req.term s.state.term
      then pure resp
      else on_some (checked_entry (λ e. is_snp_sync_req e.val_type) req.log_entries) (pure resp)
          (λ e. (do
            sync_req ← lift (deserialize_req (front e.buf))
            if leb sync_req.snp.last_log_idx s.state.commit_idx then pure resp else (do
              handled ← handle_snapshot_sync_req sync_req
              pure (
                  if handled
                  then accept resp (add64 sync_req.offset (length sync_req.data_bytes))
                  else resp))))

-- One round of the loop, whose further rounds are `next`. The configuration is read from the front,
-- as it is for an entry that comes from the file.
unfoldable pub walk_round : ℕ → ClusterConfig → (ClusterConfig → M ClusterConfig) → M ClusterConfig
walk_round committed_idx config next = do
  log ← gets (λ s. s.log)
  if ltb committed_idx config.log_idx && leb (Log.start_index log) config.prev_log_idx
      then (do
        found ← lift (Log.entry_at log config.prev_log_idx)
        e ← deref found
        read ← lift (Config.deserialize (front e.buf))
        next read.0)
      else pure config

-- The configuration that was in force at the index: back along the chain of configurations in the
-- log. Each round goes to a configuration with a smaller index.
unfoldable pub walk_configs : ℕ → ℕ → ClusterConfig → M ClusterConfig
walk_configs zero committed_idx config = pure config
walk_configs (suc fuel) committed_idx config =
    walk_round committed_idx config (walk_configs fuel committed_idx)

unfoldable pub last_config_of : Option Snapshot → M ClusterConfig
last_config_of none = halt minus_one minus_one
last_config_of (some snp) = pure snp.last_config

-- The configuration for a snapshot at the index.
unfoldable pub config_at : ℕ → M ClusterConfig
config_at committed_idx = do
  s ← gets (λ s. s)
  config ← walk_configs (s.config.log_idx + 1) committed_idx s.config
  if ltb committed_idx config.log_idx
        && (ltb 0 config.prev_log_idx && ltb config.prev_log_idx (Log.start_index s.log))
      then last_config_of s.host.last_snapshot
      else if ltb committed_idx config.log_idx && config.prev_log_idx == 0
      then halt minus_one minus_one
      else pure config

-- Whether the last snapshot is too near for a new one.
unfoldable pub is_recent : ℕ → ℕ → Option Snapshot → Bool
is_recent committed_idx distance none = false
is_recent committed_idx distance (some snp) =
    ltb (sub64 committed_idx snp.last_log_idx) (to_ulong distance)

unfoldable pub create_snapshot : ℕ → M (Unit {0})
create_snapshot committed_idx = do
  config ← config_at committed_idx
  let idx_to_compact = sub64 committed_idx 1
  log ← gets (λ s. s.log)
  term ← lift (Log.term_at log idx_to_compact)
  emit (
      sm_create_snapshot (record {
        last_log_idx = idx_to_compact;
        last_log_term = term;
        snp_size = 0;
        last_config = config;
      }))

unfoldable pub clear_thrown : Outcome (Unit {0}) → Outcome (Unit {0})
clear_thrown (done a t) = done a t
clear_thrown (exited c t) = exited c t
clear_thrown (thrown e t) = done tt (record t { snp_in_progress = false })

-- `catch (...)` around a snapshot in the making: the flag is cleared.
unfoldable pub or_clear : M (Unit {0}) → M (Unit {0})
or_clear m s = clear_thrown (m s)

unfoldable pub wants_snapshot : Server → ℕ → Bool
wants_snapshot s committed_idx =
    ltb 0 s.params.snapshot_distance
    && (ltb (to_ulong s.params.snapshot_distance) (sub64 committed_idx (Log.start_index s.log))
        && not s.snp_in_progress)

unfoldable pub snapshot_and_compact : ℕ → M (Unit {0})
snapshot_and_compact committed_idx = do
  s ← gets (λ s. s)
  when (wants_snapshot s committed_idx) (do
    modify (λ t. record t { snp_in_progress = true })
    if is_recent committed_idx s.params.snapshot_distance s.host.last_snapshot
        then modify (λ t. record t { snp_in_progress = false })
        else or_clear (create_snapshot committed_idx))

-- The state machine has answered: `created` is its result, or none for an error.
unfoldable pub on_snapshot_completed : Snapshot → Option Bool → M (Unit {0})
on_snapshot_completed snp created = do
  on_some created (pure tt)
      (λ result. when result (compact_log snp.last_log_idx >>= λ compacted. pure tt))
  modify (λ s. record s { snp_in_progress = false })
