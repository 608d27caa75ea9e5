-- ===== src/Raft/Params.antt =====
-- raft_params.hxx: the builder methods, each with a timeout, an interval or a size.
use cornerstone.Common.{ℕ}
use cornerstone.Raft.Types.{RaftParams}

unfoldable pub with_election_timeout_upper : ℕ → RaftParams → RaftParams
with_election_timeout_upper timeout p = record p { election_timeout_upper_bound = timeout }

unfoldable pub with_election_timeout_lower : ℕ → RaftParams → RaftParams
with_election_timeout_lower timeout p = record p { election_timeout_lower_bound = timeout }

unfoldable pub with_hb_interval : ℕ → RaftParams → RaftParams
with_hb_interval hb_interval p = record p { heart_beat_interval = hb_interval }

unfoldable pub with_rpc_failure_backoff : ℕ → RaftParams → RaftParams
with_rpc_failure_backoff backoff p = record p { rpc_failure_backoff = backoff }

unfoldable pub with_max_append_size : ℕ → RaftParams → RaftParams
with_max_append_size size p = record p { max_append_size = size }

unfoldable pub with_log_sync_batch_size : ℕ → RaftParams → RaftParams
with_log_sync_batch_size batch_size p = record p { log_sync_batch_size = batch_size }

unfoldable pub with_log_sync_stopping_gap : ℕ → RaftParams → RaftParams
with_log_sync_stopping_gap gap p = record p { log_sync_stop_gap = gap }

unfoldable pub with_snapshot_enabled : ℕ → RaftParams → RaftParams
with_snapshot_enabled commit_distance p = record p { snapshot_distance = commit_distance }

unfoldable pub with_snapshot_sync_block_size : ℕ → RaftParams → RaftParams
with_snapshot_sync_block_size size p = record p { snapshot_block_size = size }
