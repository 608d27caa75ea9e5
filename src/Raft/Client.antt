-- ===== src/Raft/Client.antt =====
-- raft_server.cxx: the calls of the application, and the requests that they send to the leader.
pub mod Appends
use cornerstone.Common.{
  ℕ, List, [], ◌∷◌, ◌++◌, map, Bool, true, false, Option, none, some, ◌==◌, if◌then◌else◌,
  minus_one,
}
use cornerstone.Buffer.{alloc, put_int, set_pos, sz_int}
use cornerstone.Codec.Entry.{LogEntry, LogValType, app_log, cluster_server}
use cornerstone.Codec.Srv
use cornerstone.Codec.Srv.{SrvConfig}
use cornerstone.Codec.Config.{get_server}
use cornerstone.Async
use cornerstone.Async.{AsyncResult}
use cornerstone.Raft.Types.{MsgType, ReqMsg, RespMsg}
use cornerstone.Raft.Server.{M, ◌>>=◌, ◌>>◌, pure, gets, modify, lift}
use cornerstone.Raft.Dispatch.{process_req}

-- The `async_result<bool>` that a call returns: one that has its result, or one that waits for the answer
-- to the request, which goes to the rpc client of the server with the id.
pub data Submitted : Type 0 where
  known : Bool → Submitted
  asked : ℕ → ReqMsg → Submitted

unfoldable pub client_entry : LogValType → List ℕ → LogEntry
client_entry type buf = record { term = 0; val_type = type; buf = buf }

unfoldable pub client_req : MsgType → List LogEntry → ReqMsg
client_req type entries = record {
  term = 0;
  type = type;
  src = 0;
  dst = 0;
  last_log_term = 0;
  last_log_idx = 0;
  commit_idx = 0;
  log_entries = entries;
}

-- The client that the map has for the id, if it has one.
unfoldable pub find_client : ℕ → List (ℕ × Bool) → Option Bool
find_client id [] = none
find_client id ((k, client) ∷ cs) = if k == id then some client else find_client id cs

-- `rpc_handler` of `send_msg_to_leader`: the answer or the error of the request becomes the result.
unfoldable pub client_handler :
    {E H : Type 0} → Option RespMsg → Option E → AsyncResult Bool E H → AsyncResult Bool E H
client_handler resp none presult =
    Async.set_result (elim resp [ none ↦ false | some r ↦ r.accepted ]) none presult
client_handler resp (some err) presult = Async.set_result false (some err) presult

-- The factory of rpc clients is a parameter: whether it makes one for an endpoint.
module _ (create_client : List ℕ → Bool) where
  -- The client of the leader: that of the map, or a new one. None where the leader is no server of the
  -- configuration.
  unfoldable pub leader_client : ℕ → M (Option Bool)
  leader_client leader_id = do
    s ← gets (λ s. s)
    elim (find_client leader_id s.rpc_clients) [
      | some client ↦ pure (some client)
      | none ↦ elim (get_server s.config leader_id) [
        | none ↦ pure none
        | some srv ↦ (do
          let client = create_client srv.endpoint
          modify (λ s. record s { rpc_clients = s.rpc_clients ++ ((leader_id, client) ∷ []) })
          pure (some client))
      ]
    ]

  -- The end of `send_msg_to_leader`, with the null pointer for a client that could not be made.
  unfoldable pub send_to_client : ℕ → ReqMsg → Option Bool → Submitted
  send_to_client leader_id req (some true) = asked leader_id req
  send_to_client leader_id req _ = known false

  unfoldable pub send_msg_to_leader : ReqMsg → M Submitted
  send_msg_to_leader req = do
    s ← gets (λ s. s)
    if s.leader_id == minus_one
        then pure (known false)
        else if s.leader_id == s.id
        then (do resp ← process_req req; pure (known resp.accepted))
        else (do client ← leader_client s.leader_id; pure (send_to_client s.leader_id req client))

  unfoldable pub add_srv : SrvConfig → M Submitted
  add_srv srv = do
    buf ← lift (Srv.serialize srv)
    send_msg_to_leader
        (client_req MsgType.add_server_request (client_entry cluster_server buf.bytes ∷ []))

  unfoldable pub append_entries : List (List ℕ) → M Submitted
  append_entries [] = pure (known false)
  append_entries (log ∷ logs) =
      send_msg_to_leader
        (client_req MsgType.client_request (map (client_entry app_log) (log ∷ logs)))

  unfoldable pub remove_srv : ℕ → M Submitted
  remove_srv srv_id = do
    buf ← lift (alloc sz_int)
    buf ← lift (put_int buf srv_id)
    send_msg_to_leader (
        client_req MsgType.remove_server_request
          (client_entry cluster_server (set_pos buf 0).bytes ∷ []))
