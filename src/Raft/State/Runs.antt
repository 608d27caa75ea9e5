-- ===== src/Raft/State/Runs.antt =====
-- raft_server.cxx: the persistent state over any sequence of events.
use cornerstone.Common.{◌≡◌, arith, false, Option, none, some}
use cornerstone.Raft.Types.{MsgType, ReqMsg, RespMsg}
use cornerstone.Raft.Server.{Server, pure, Handler, peer_handler, ext_handler, PeerRef}
use cornerstone.Raft.Dispatch.{
  dispatch_req, note_term, reset_stepping_down, process_req, dispatch_resp, handle_peer_resp,
  call_handler, handle_rpc_result,
}
use cornerstone.Raft.Run.{
  final, Event, request, rpc_result, hb_timeout, election_timeout, retry, commit_signal,
  snapshot_made, handle_event, is_join, Regular, Run, start, next,
}
use cornerstone.Raft.State.Keeps.{
  Advances, Advances-refl, Advances-trans, Keeps, Keeps-bind, Keeps-pure, keeps_rules,
}
use cornerstone.Raft.State.Logs.{
  handle_append_entries-Keeps, handle_cli_req-Keeps, handle_append_entries_resp-Keeps,
  handle_install_snapshot_resp-Keeps, handle_hb_timeout-Keeps,
}
use cornerstone.Raft.State.Members.{
  handle_rm_srv_req-Keeps, handle_add_srv_req-Keeps, handle_log_sync_req-Keeps,
  handle_leave_cluster_req-Keeps, handle_ext_resp-Keeps, handle_ext_resp_err-Keeps,
  on_retryable_req_err-Keeps,
}
use cornerstone.Raft.State.Terms.{
  update_term-Keeps, handle_vote_req-Keeps, handle_voting_resp-Keeps,
  handle_election_timeout-Advances,
}
use cornerstone.Raft.State.Commits.{
  handle_install_snapshot_req-Keeps, on_snapshot_completed-Keeps, commit_round-Keeps,
}

reset_stepping_down_state : (s : Server) → (reset_stepping_down s).state ≡ s.state
unfolding reset_stepping_down
reset_stepping_down_state s = ground arith

note_term-Keeps : (req : ReqMsg) → Keeps (note_term req)
unfolding note_term
note_term-Keeps req = search (keeps_rules, reset_stepping_down_state, update_term-Keeps) depth 30

dispatch_req-Keeps : (t : MsgType) (req : ReqMsg) → is_join t ≡ false → Keeps (dispatch_req t req)
unfolding dispatch_req
dispatch_req-Keeps MsgType.append_entries_request req h = handle_append_entries-Keeps req
dispatch_req-Keeps MsgType.request_vote_request req h = handle_vote_req-Keeps req
dispatch_req-Keeps MsgType.client_request req h = handle_cli_req-Keeps req
dispatch_req-Keeps MsgType.add_server_request req h = handle_add_srv_req-Keeps req
dispatch_req-Keeps MsgType.remove_server_request req h = handle_rm_srv_req-Keeps req
dispatch_req-Keeps MsgType.sync_log_request req h = handle_log_sync_req-Keeps req
dispatch_req-Keeps MsgType.join_cluster_request req h = cc h
dispatch_req-Keeps MsgType.leave_cluster_request req h = handle_leave_cluster_req-Keeps req
dispatch_req-Keeps MsgType.install_snapshot_request req h = handle_install_snapshot_req-Keeps req
dispatch_req-Keeps _ req h = search keeps_rules

pub process_req-Keeps : (req : ReqMsg) → is_join req.type ≡ false → Keeps (process_req req)
unfolding process_req
process_req-Keeps req h = search (keeps_rules, note_term-Keeps, dispatch_req-Keeps req.type req h)

dispatch_resp-Keeps : (t : MsgType) (resp : RespMsg) → Keeps (dispatch_resp t resp)
unfolding dispatch_resp
dispatch_resp-Keeps MsgType.request_vote_response resp = handle_voting_resp-Keeps resp
dispatch_resp-Keeps MsgType.append_entries_response resp = handle_append_entries_resp-Keeps resp
dispatch_resp-Keeps MsgType.install_snapshot_response resp = handle_install_snapshot_resp-Keeps resp
dispatch_resp-Keeps _ resp = search keeps_rules

handle_peer_resp-Keeps : (result : Option RespMsg) → Keeps (handle_peer_resp result)
unfolding handle_peer_resp
handle_peer_resp-Keeps none = search keeps_rules
handle_peer_resp-Keeps (some resp) =
    search (keeps_rules, update_term-Keeps, dispatch_resp-Keeps) depth 30

call_handler-Keeps :
    (h : Handler) (req : ReqMsg) (result : Option RespMsg) → Keeps (call_handler h req result)
unfolding call_handler
call_handler-Keeps peer_handler req result = handle_peer_resp-Keeps result
call_handler-Keeps ext_handler req none = handle_ext_resp_err-Keeps req
call_handler-Keeps ext_handler req (some resp) = handle_ext_resp-Keeps resp

handle_rpc_result-Keeps :
    (r : PeerRef) (h : Handler) (req : ReqMsg) (result : Option RespMsg)
    → Keeps (handle_rpc_result r h req result)
unfolding handle_rpc_result
handle_rpc_result-Keeps r h req result = search (keeps_rules, call_handler-Keeps) depth 30

handle_event-Advances :
    (e : Event) (s : Server) → Regular e s → Advances s.state (final (handle_event e s)).state
unfolding handle_event Regular
handle_event-Advances (request req) s h =
    (Keeps-bind (process_req req) (λ resp. pure tt) (process_req-Keeps req h)
        (λ resp. Keeps-pure tt)).at
      s
handle_event-Advances (rpc_result r k req result) s h =
    (handle_rpc_result-Keeps r k req result).at s
handle_event-Advances (hb_timeout id) s h = (handle_hb_timeout-Keeps id).at s
handle_event-Advances election_timeout s h = handle_election_timeout-Advances s h
handle_event-Advances (retry id req) s h = (on_retryable_req_err-Keeps id req).at s
handle_event-Advances commit_signal s h = commit_round-Keeps.at s
handle_event-Advances (snapshot_made snp created) s h =
    (on_snapshot_completed-Keeps snp created).at s

-- Over any sequence of events without a request to join a cluster, and with no election at the last
-- 64-bit term, the term and the commit index do not go back, and within a term a vote stays.
pub Run-Advances : (s t : Server) → Run s t → Advances s.state t.state
Run-Advances s t start = Advances-refl s.state
Run-Advances s t (next u e r h) =
    Advances-trans s.state u.state _ (Run-Advances s u r) (handle_event-Advances e u h)
