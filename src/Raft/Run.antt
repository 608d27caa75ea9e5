-- ===== src/Raft/Run.antt =====
-- raft_server.cxx and peer.cxx: what can happen to a server, as a step relation. Each event runs one
-- method under the lock, and the state goes on from where the method ended.
use cornerstone.Common.{ℕ, ◌≡◌, ◌+◌, ◌<◌, ◌^◌, Bool, true, false, Option}
use cornerstone.Codec.Snapshot.{Snapshot}
use cornerstone.Raft.Types.{MsgType, ReqMsg, RespMsg}
use cornerstone.Raft.Server.{
  Server, M, ◌>>=◌, pure, Outcome, done, exited, thrown, Handler, PeerRef,
}
use cornerstone.Raft.Election.{handle_election_timeout}
use cornerstone.Raft.Responses.{handle_hb_timeout}
use cornerstone.Raft.Extended.{on_retryable_req_err}
use cornerstone.Raft.Dispatch.{process_req, handle_rpc_result}
use cornerstone.Raft.Snapshots.{on_snapshot_completed}
use cornerstone.Raft.Committer.{commit_round}

-- The state that a method leaves behind, however it ends.
abbrev pub final : {A : Type 0} → Outcome A → Server
final (done a s) = s
final (exited c s) = s
final (thrown e s) = s

pub data Event : Type 0 where
  request : ReqMsg → Event
  rpc_result : PeerRef → Handler → ReqMsg → Option RespMsg → Event
  hb_timeout : ℕ → Event
  election_timeout : Event
  retry : ℕ → ReqMsg → Event
  commit_signal : Event
  snapshot_made : Snapshot → Option Bool → Event

unfoldable pub handle_event : Event → M (Unit {0})
handle_event (request req) = process_req req >>= λ resp. pure tt
handle_event (rpc_result r h req result) = handle_rpc_result r h req result
handle_event (hb_timeout id) = handle_hb_timeout id
handle_event election_timeout = handle_election_timeout
handle_event (retry id req) = on_retryable_req_err id req
handle_event commit_signal = commit_round
handle_event (snapshot_made snp created) = on_snapshot_completed snp created

abbrev pub is_join : MsgType → Bool
is_join MsgType.join_cluster_request = true
is_join _ = false

-- No event makes the server join a cluster, and no election overflows the term.
unfoldable pub Regular : Event → Server → Type 0
Regular (request req) s = is_join req.type ≡ false
Regular election_timeout s = s.state.term + 1 < 2 ^ 64
Regular _ s = Unit

-- The states that regular events lead to.
pub data Run (s : Server) : Server → Type 0 where
  start : Run s s
  next : (t : Server) (e : Event) → Run s t → Regular e t → Run s (final (handle_event e t))
