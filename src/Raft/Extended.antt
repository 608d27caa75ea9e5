-- ===== src/Raft/Extended.antt =====
-- raft_server.cxx: the answers to the requests about membership, and their failures.
use cornerstone.Common.{
  ℕ, length, Bool, true, false, not, ◌&&◌, Option, none, some, leb, lt_int32, ◌==◌, if◌then◌else◌,
  add64, sub64, minus_one, is_some,
}
use cornerstone.Codec.Snapshot.{SnapshotSyncCtx}
use cornerstone.Raft.Types.{MsgType, ReqMsg, RespMsg, max_hb_interval}
use cornerstone.Raft.Peers.{
  Peer, resume_hb_speed, slow_down_hb, set_next_log_idx, set_matched_idx, set_snapshot_in_sync,
  set_offset,
}
use cornerstone.Raft.Server.{
  Server, M, ◌>>=◌, ◌>>◌, on_some, pure, gets, modify, emit, when, halt, deref, send,
  schedule_retry, ext_handler, PeerRef, member, joining, get_peer, modify_peer,
}
use cornerstone.Raft.Membership.{drop_peer}
use cornerstone.Raft.Joining.{sync_log_to_new_srv, rm_srv_from_cluster}

-- The new server has taken in a block of the snapshot.
unfoldable pub joining_progress : ℕ → SnapshotSyncCtx → M (Unit {0})
joining_progress next_idx ctx =
    if leb ctx.snp.snp_size next_idx
    then (do
      modify_peer joining (set_snapshot_in_sync none)
      modify_peer joining (set_next_log_idx (add64 ctx.snp.last_log_idx 1))
      modify_peer joining (set_matched_idx ctx.snp.last_log_idx))
    else modify_peer joining (set_offset next_idx)

unfoldable pub handle_joining_snapshot : RespMsg → Peer → M (Unit {0})
handle_joining_snapshot resp p =
    if not resp.accepted
    then pure tt
    else on_some p.snp_sync_ctx (halt minus_one minus_one) (λ ctx. (do
      joining_progress resp.next_idx ctx
      found ← gets (get_peer joining)
      q ← deref found
      sync_log_to_new_srv q.next_log_idx))

-- The switch on the type; `waiting` is `srv_to_join_`.
unfoldable pub dispatch_ext : MsgType → Option Peer → RespMsg → M (Unit {0})
dispatch_ext MsgType.sync_log_response none resp = pure tt
dispatch_ext MsgType.sync_log_response (some p) resp = do
  modify_peer joining resume_hb_speed
  modify_peer joining (set_next_log_idx resp.next_idx)
  modify_peer joining (set_matched_idx (sub64 resp.next_idx 1))
  sync_log_to_new_srv resp.next_idx
dispatch_ext MsgType.join_cluster_response waiting resp =
    when (is_some waiting && resp.accepted) (sync_log_to_new_srv 1)
dispatch_ext MsgType.leave_cluster_response waiting resp =
    when resp.accepted (rm_srv_from_cluster resp.src)
dispatch_ext MsgType.install_snapshot_response none resp = pure tt
dispatch_ext MsgType.install_snapshot_response (some p) resp = handle_joining_snapshot resp p
dispatch_ext _ waiting resp = halt minus_one minus_one

unfoldable pub handle_ext_resp : RespMsg → M (Unit {0})
handle_ext_resp resp = do waiting ← gets (λ s. s.srv_to_join); dispatch_ext resp.type waiting resp

-- The peer that a failed request was for, if the request is one that is tried again.
unfoldable pub retried_peer : ReqMsg → Server → Option Peer
retried_peer req s = elim req.type [
  | MsgType.sync_log_request ↦ s.srv_to_join
  | MsgType.join_cluster_request ↦ s.srv_to_join
  | MsgType.leave_cluster_request ↦ get_peer (member req.dst) s
  | _ ↦ none
]

abbrev pub is_leave : MsgType → Bool
is_leave MsgType.leave_cluster_request = true
is_leave _ = false

-- Where the peer of a failed request stands.
abbrev pub retried_ref : ReqMsg → PeerRef
retried_ref req = if is_leave req.type then member req.dst else joining

unfoldable pub give_up : ReqMsg → Peer → M (Unit {0})
give_up req p =
    if is_leave req.type
    then (do
      count ← gets (λ s. length s.peers)
      when (count == 1) (drop_peer p.config.id)
      rm_srv_from_cluster p.config.id)
    else modify (λ s. record s { config_changing = false; srv_to_join = none })

unfoldable pub handle_ext_resp_err : ReqMsg → M (Unit {0})
handle_ext_resp_err req = do
  s ← gets (λ s. s)
  on_some (retried_peer req s) (pure tt) (λ p.
      if not (lt_int32 p.current_hb_interval (max_hb_interval s.params)) then give_up req p else (do
        modify_peer (retried_ref req) slow_down_hb
        emit (schedule_retry p.config.id req (slow_down_hb p).current_hb_interval)))

unfoldable pub on_retryable_req_err : ℕ → ReqMsg → M (Unit {0})
on_retryable_req_err id req = emit (send id ext_handler req)
