-- ===== src/Raft/Joining.antt =====
-- raft_server.cxx: the log of a server that joins, and the two sides of joining and leaving.
use cornerstone.Common.{
  ℕ, List, [], ◌∷◌, ◌++◌, true, ◌&&◌, ltb, ◌==◌, if◌then◌else◌, sub64, to_int32, lt_int32,
  min_int32, minus_one,
}
use cornerstone.Codec.Entry.{conf, log_pack}
use cornerstone.Codec.Srv.{SrvConfig}
use cornerstone.Codec.Config
use cornerstone.Codec.Config.{ClusterConfig}
use cornerstone.Log
use cornerstone.Raft.Types.{
  SrvRole, MsgType, ReqMsg, RespMsg, resp_msg, accept, set_term, set_voted_for, set_commit_idx,
}
use cornerstone.Raft.Server.{
  Server, M, ◌>>=◌, ◌>>◌, on_some, pure, gets, modify, emit, lift, deref, send, save_state,
  ext_handler, joining,
}
use cornerstone.Raft.Replication.{create_sync_snapshot_req, request_append_entries}
use cornerstone.Raft.Membership.{reconfigure, checked_entry, is_conf, front}

-- A new configuration goes into the log as an entry of this server's term.
unfoldable pub append_config : ClusterConfig → M (Unit {0})
append_config new_conf = do
  bytes ← lift (Config.serialize new_conf)
  modify (λ s. record s {
    log = Log.append s.log (record { term = s.state.term; val_type = conf; buf = bytes.bytes });
    config_changing = true;
  })
  request_append_entries

-- The configuration with the new server at its end.
unfoldable pub config_with : Server → SrvConfig → ClusterConfig
config_with s srv = record {
  log_idx = Log.next_slot s.log;
  prev_log_idx = s.config.log_idx;
  servers = s.config.servers ++ (srv ∷ []);
}

unfoldable pub sync_pack_req : ℕ → ℕ → M ReqMsg
sync_pack_req start_idx gap = do
  s ← gets (λ s. s)
  p ← deref s.srv_to_join
  bytes ← lift (s.host.pack s.log start_idx (min_int32 gap s.params.log_sync_batch_size))
  pure (record {
    term = s.state.term;
    type = MsgType.sync_log_request;
    src = s.id;
    dst = p.config.id;
    last_log_term = 0;
    last_log_idx = sub64 start_idx 1;
    commit_idx = s.quick_commit_idx;
    log_entries = record { term = s.state.term; val_type = log_pack; buf = bytes } ∷ [];
  })

unfoldable pub sync_log_to_new_srv : ℕ → M (Unit {0})
sync_log_to_new_srv start_idx = do
  s ← gets (λ s. s)
  let gap = to_int32 (sub64 s.quick_commit_idx start_idx)
  if lt_int32 gap s.params.log_sync_stop_gap
      then (do
        p ← deref s.srv_to_join
        srv ← deref s.conf_to_add
        append_config (config_with s srv))
      else (do
        req ←
            if ltb 0 start_idx && ltb start_idx (Log.start_index s.log)
            then create_sync_snapshot_req joining start_idx s.state.term s.quick_commit_idx
            else sync_pack_req start_idx gap
        emit (send req.dst ext_handler req))

unfoldable pub handle_join_cluster_req : ReqMsg → M RespMsg
handle_join_cluster_req req = do
  s ← gets (λ s. s)
  let resp = resp_msg s.state.term MsgType.join_cluster_response s.id req.src 0
  on_some (checked_entry (λ e. is_conf e.val_type) req.log_entries) (pure resp) (λ e.
      if s.catching_up then pure resp else (do
        modify (λ t. record t {
          catching_up = true;
          role = SrvRole.follower;
          leader_id = req.src;
          state = set_term (set_voted_for (set_commit_idx t.state 0) minus_one) req.term;
          quick_commit_idx = 0;
        })
        st ← gets (λ t. t.state)
        emit (save_state st)
        read ← lift (Config.deserialize (front e.buf))
        reconfigure read.0
        next ← gets (λ t. Log.next_slot t.log)
        pure (accept resp next)))

unfoldable pub handle_leave_cluster_req : ReqMsg → M RespMsg
handle_leave_cluster_req req = do
  s ← gets (λ s. s)
  let resp = resp_msg s.state.term MsgType.leave_cluster_response s.id req.src 0
  if s.config_changing then pure resp else (do
    modify (λ t. record t { steps_to_down = 2 })
    pure (accept resp (Log.next_slot s.log)))

-- All servers but those of the id.
unfoldable pub servers_without : ℕ → List SrvConfig → List SrvConfig
servers_without id [] = []
servers_without id (c ∷ cs) =
    let rest = servers_without id cs in if c.id == id then rest else c ∷ rest

unfoldable pub config_without : Server → ℕ → ClusterConfig
config_without s srv_id = record {
  log_idx = Log.next_slot s.log;
  prev_log_idx = s.config.log_idx;
  servers = servers_without srv_id s.config.servers;
}

unfoldable pub rm_srv_from_cluster : ℕ → M (Unit {0})
rm_srv_from_cluster srv_id = do
  s ← gets (λ s. s)
  modify (λ t. record t { config_changing = true })
  append_config (config_without s srv_id)
