-- ===== src/Raft/Backoff.antt =====
-- raft_server.cxx and peer.hxx: the retries of the requests to a server that joins.
use cornerstone.Common.{ℕ, zero, suc}
use cornerstone.Raft.Types.{MsgType, ReqMsg}
use cornerstone.Raft.Server.{Server}
use cornerstone.Raft.Run.{final}
use cornerstone.Raft.Extended.{handle_ext_resp_err}

-- The requests to a server that joins, which are tried again.
abbrev pub IsJoining : MsgType → Type 0
IsJoining MsgType.join_cluster_request = Unit
IsJoining MsgType.sync_log_request = Unit
IsJoining _ = ⊥

-- The server after the request has failed `k` times.
unfoldable pub failures : ℕ → ReqMsg → Server → Server
failures zero req s = s
failures (suc k) req s = failures k req (final (handle_ext_resp_err req s))
