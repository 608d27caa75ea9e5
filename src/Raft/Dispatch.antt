-- ===== src/Raft/Dispatch.antt =====
-- raft_server.cxx: the entry points for requests and for the answers of peers. peer.cxx: what a peer
-- does with an answer before its handler has it.
use cornerstone.Common.{Bool, true, false, Option, none, some, ltb, if◌then◌else◌, minus_one}
use cornerstone.Raft.Types.{MsgType, ReqMsg, RespMsg}
use cornerstone.Raft.Peers.{Peer, set_free, resume_hb_speed, slow_down_hb}
use cornerstone.Raft.Server.{
  Server, M, ◌>>=◌, ◌>>◌, pure, modify, when, halt, Handler, peer_handler, ext_handler, PeerRef,
  modify_peer,
}
use cornerstone.Raft.Timers.{update_term}
use cornerstone.Raft.Election.{handle_vote_req, handle_voting_resp}
use cornerstone.Raft.Append.{handle_append_entries, handle_cli_req}
use cornerstone.Raft.Responses.{handle_append_entries_resp, handle_install_snapshot_resp}
use cornerstone.Raft.Membership.{handle_rm_srv_req, handle_add_srv_req, handle_log_sync_req}
use cornerstone.Raft.Joining.{handle_join_cluster_req, handle_leave_cluster_req}
use cornerstone.Raft.Snapshots.{handle_install_snapshot_req}
use cornerstone.Raft.Extended.{handle_ext_resp, handle_ext_resp_err}

-- The two switches on the type of a request, in one.
unfoldable pub dispatch_req : MsgType → ReqMsg → M RespMsg
dispatch_req MsgType.append_entries_request req = handle_append_entries req
dispatch_req MsgType.request_vote_request req = handle_vote_req req
dispatch_req MsgType.client_request req = handle_cli_req req
dispatch_req MsgType.add_server_request req = handle_add_srv_req req
dispatch_req MsgType.remove_server_request req = handle_rm_srv_req req
dispatch_req MsgType.sync_log_request req = handle_log_sync_req req
dispatch_req MsgType.join_cluster_request req = handle_join_cluster_req req
dispatch_req MsgType.leave_cluster_request req = handle_leave_cluster_req req
dispatch_req MsgType.install_snapshot_request req = handle_install_snapshot_req req
dispatch_req _ req = halt minus_one minus_one

-- The messages of a leader or a candidate.
abbrev pub updates_term : MsgType → Bool
updates_term MsgType.append_entries_request = true
updates_term MsgType.request_vote_request = true
updates_term MsgType.install_snapshot_request = true
updates_term _ = false

-- A server that was told to leave waits again.
unfoldable pub reset_stepping_down : Server → Server
reset_stepping_down s = if ltb 0 s.steps_to_down then record s { steps_to_down = 2 } else s

unfoldable pub note_term : ReqMsg → M (Unit {0})
note_term req =
    when (updates_term req.type) (do newer ← update_term req.term; modify reset_stepping_down)

unfoldable pub process_req : ReqMsg → M RespMsg
process_req req = do note_term req; dispatch_req req.type req

unfoldable pub dispatch_resp : MsgType → RespMsg → M (Unit {0})
dispatch_resp MsgType.request_vote_response resp = handle_voting_resp resp
dispatch_resp MsgType.append_entries_response resp = handle_append_entries_resp resp
dispatch_resp MsgType.install_snapshot_response resp = handle_install_snapshot_resp resp
dispatch_resp _ resp = halt minus_one minus_one

-- An answer, or none for an rpc error.
unfoldable pub handle_peer_resp : Option RespMsg → M (Unit {0})
handle_peer_resp none = pure tt
handle_peer_resp (some resp) = do
  newer ← update_term resp.term
  if newer then pure tt else dispatch_resp resp.type resp

-- The requests after which a peer is free again.
abbrev pub frees_peer : MsgType → Bool
frees_peer MsgType.append_entries_request = true
frees_peer MsgType.install_snapshot_request = true
frees_peer _ = false

-- `peer::handle_rpc_result`: the peer's part.
unfoldable pub settle_peer : MsgType → Option RespMsg → Peer → Peer
settle_peer type result p =
    let q = if frees_peer type then set_free p else p in
    elim result [ none ↦ slow_down_hb q | some resp ↦ resume_hb_speed q ]

unfoldable pub call_handler : Handler → ReqMsg → Option RespMsg → M (Unit {0})
call_handler peer_handler req result = handle_peer_resp result
call_handler ext_handler req none = handle_ext_resp_err req
call_handler ext_handler req (some resp) = handle_ext_resp resp

unfoldable pub handle_rpc_result : PeerRef → Handler → ReqMsg → Option RespMsg → M (Unit {0})
handle_rpc_result r handler req result = do
  modify_peer r (settle_peer req.type result)
  call_handler handler req result
