-- ===== src/Raft/Types.antt =====
-- srv_role.hxx, msg_type.hxx, msg_base.hxx, req_msg.hxx, resp_msg.hxx, srv_state.hxx, raft_params.hxx
use cornerstone.Common.{ℕ, ◌-◌, ◌/◌, List, Bool, true, false, ltb, if◌then◌else◌, add64}
use cornerstone.Codec.Entry.{LogEntry}

pub data SrvRole : Type 0 where
  follower candidate leader : SrvRole

-- `unnamed` is a value that the cast from a byte makes of a number that the enum has no name for.
pub data MsgType : Type 0 where
  request_vote_request request_vote_response : MsgType
  append_entries_request append_entries_response : MsgType
  client_request : MsgType
  add_server_request add_server_response : MsgType
  remove_server_request remove_server_response : MsgType
  sync_log_request sync_log_response : MsgType
  join_cluster_request join_cluster_response : MsgType
  leave_cluster_request leave_cluster_response : MsgType
  install_snapshot_request install_snapshot_response : MsgType
  unnamed : ℕ → MsgType

pub record ReqMsg : Type 0 where
  pub term : ℕ
  pub type : MsgType
  pub src : ℕ
  pub dst : ℕ
  pub last_log_term : ℕ
  pub last_log_idx : ℕ
  pub commit_idx : ℕ
  pub log_entries : List LogEntry

pub record RespMsg : Type 0 where
  pub term : ℕ
  pub type : MsgType
  pub src : ℕ
  pub dst : ℕ
  pub next_idx : ℕ
  pub accepted : Bool

-- The constructor of `resp_msg` with the default `accepted`.
unfoldable pub resp_msg : ℕ → MsgType → ℕ → ℕ → ℕ → RespMsg
resp_msg term type src dst next_idx = record {
  term = term;
  type = type;
  src = src;
  dst = dst;
  next_idx = next_idx;
  accepted = false;
}

unfoldable pub accept : RespMsg → ℕ → RespMsg
accept r next_idx = record r { next_idx = next_idx; accepted = true }

-- The persistent state of a server. `voted_for` is `minus_one` for nobody.
pub record SrvState : Type 0 where
  pub term : ℕ
  pub commit_idx : ℕ
  pub voted_for : ℕ

unfoldable pub set_term : SrvState → ℕ → SrvState
set_term st term = record st { term = term }

unfoldable pub inc_term : SrvState → SrvState
inc_term st = record st { term = add64 st.term 1 }

unfoldable pub set_voted_for : SrvState → ℕ → SrvState
set_voted_for st voted_for = record st { voted_for = voted_for }

-- The commit index never goes back.
unfoldable pub set_commit_idx : SrvState → ℕ → SrvState
set_commit_idx st idx = if ltb st.commit_idx idx then record st { commit_idx = idx } else st

-- The parameters that the server reads. Each is an int32 that is not negative.
pub record RaftParams : Type 0 where
  pub election_timeout_upper_bound : ℕ
  pub election_timeout_lower_bound : ℕ
  pub heart_beat_interval : ℕ
  pub rpc_failure_backoff : ℕ
  pub log_sync_batch_size : ℕ
  pub log_sync_stop_gap : ℕ
  pub snapshot_distance : ℕ
  pub snapshot_block_size : ℕ
  pub max_append_size : ℕ

abbrev pub default_params : RaftParams
default_params = record {
  election_timeout_upper_bound = 300;
  election_timeout_lower_bound = 150;
  heart_beat_interval = 75;
  rpc_failure_backoff = 25;
  log_sync_batch_size = 1000;
  log_sync_stop_gap = 10;
  snapshot_distance = 0;
  snapshot_block_size = 0;
  max_append_size = 100;
}

-- Where the code's difference is negative the maximum is the interval, and so it is here.
unfoldable pub max_hb_interval : RaftParams → ℕ
max_hb_interval p =
    let bound = p.election_timeout_lower_bound - p.heart_beat_interval / 2 in
    if ltb p.heart_beat_interval bound then bound else p.heart_beat_interval
