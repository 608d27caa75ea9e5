-- ===== src/Raft/State/Members.antt =====
-- raft_server.cxx: servers that join and leave.
use cornerstone.Common.{ℕ, refl, Bool, none, some, Option, List, [], ◌∷◌}
use cornerstone.Raft.Server.{M}
use cornerstone.Raft.Types.{MsgType, ReqMsg, RespMsg}
use cornerstone.Codec.Srv.{SrvConfig}
use cornerstone.Codec.Config.{ClusterConfig}
use cornerstone.Codec.Snapshot.{SnapshotSyncCtx}
use cornerstone.Raft.Peers.{Peer}
use cornerstone.Raft.Membership.{
  remove_round, take_over_joining, add_peer, add_peers, drop_peer, remove_srvs, reconfigure,
  handle_rm_srv_req, invite_srv_to_join_cluster, handle_add_srv_req, handle_log_sync_req,
}
use cornerstone.Raft.Joining.{
  append_config, sync_pack_req, sync_log_to_new_srv, handle_leave_cluster_req, rm_srv_from_cluster,
}
use cornerstone.Raft.Extended.{
  joining_progress, handle_joining_snapshot, dispatch_ext, handle_ext_resp, give_up,
  handle_ext_resp_err, on_retryable_req_err,
}
use cornerstone.Raft.State.Sending.{
  disable_hb-Keeps, enable_hb_for_peer-Keeps, create_sync_snapshot_req-Keeps, commit-Keeps,
  request_append_entries-Keeps,
}
use cornerstone.Raft.State.Keeps.{Keeps, Keeps-then, keeps_rules}

pub take_over_joining-Keeps : (id : ℕ) (o : Option Peer) → Keeps (take_over_joining id o)
unfolding take_over_joining
take_over_joining-Keeps id none = search (keeps_rules, refl) depth 30
take_over_joining-Keeps id (some p) = search (keeps_rules, refl) depth 30

pub add_peer-Keeps : (c : SrvConfig) → Keeps (add_peer c)
unfolding add_peer
add_peer-Keeps c =
    search (keeps_rules, refl, enable_hb_for_peer-Keeps, take_over_joining-Keeps) depth 30

pub add_peers-Keeps : (cs : List SrvConfig) → Keeps (add_peers cs)
unfolding add_peers
add_peers-Keeps [] = search (keeps_rules, refl) depth 30
add_peers-Keeps (c ∷ cs) =
    Keeps-then (add_peer c) (add_peers cs) (add_peer-Keeps c) (add_peers-Keeps cs)

pub drop_peer-Keeps : (id : ℕ) → Keeps (drop_peer id)
unfolding drop_peer
drop_peer-Keeps id = search (keeps_rules, refl, disable_hb-Keeps) depth 30

pub remove_round-Keeps :
    (config : ClusterConfig) (k : ℕ) (next : M Bool)
    → Keeps next
    → Keeps (remove_round config k next)
unfolding remove_round
remove_round-Keeps config k next h = search (keeps_rules, refl, drop_peer-Keeps) depth 30

pub remove_srvs-Keeps : (config : ClusterConfig) (ids : List ℕ) → Keeps (remove_srvs config ids)
unfolding remove_srvs
remove_srvs-Keeps config [] = search (keeps_rules, refl) depth 30
remove_srvs-Keeps config (id ∷ ids) =
    remove_round-Keeps config id (remove_srvs config ids) (remove_srvs-Keeps config ids)

pub reconfigure-Keeps : (config : ClusterConfig) → Keeps (reconfigure config)
unfolding reconfigure
reconfigure-Keeps config = search (keeps_rules, refl, add_peers-Keeps, remove_srvs-Keeps) depth 30

pub handle_rm_srv_req-Keeps : (req : ReqMsg) → Keeps (handle_rm_srv_req req)
unfolding handle_rm_srv_req
handle_rm_srv_req-Keeps req = search (keeps_rules, refl) depth 30

pub invite_srv_to_join_cluster-Keeps : Keeps (invite_srv_to_join_cluster)
unfolding invite_srv_to_join_cluster
invite_srv_to_join_cluster-Keeps = search (keeps_rules, refl) depth 30

pub handle_add_srv_req-Keeps : (req : ReqMsg) → Keeps (handle_add_srv_req req)
unfolding handle_add_srv_req
handle_add_srv_req-Keeps req = search (keeps_rules, refl, invite_srv_to_join_cluster-Keeps) depth 30

pub handle_log_sync_req-Keeps : (req : ReqMsg) → Keeps (handle_log_sync_req req)
unfolding handle_log_sync_req
handle_log_sync_req-Keeps req = search (keeps_rules, refl, commit-Keeps) depth 30

pub append_config-Keeps : (c : ClusterConfig) → Keeps (append_config c)
unfolding append_config
append_config-Keeps c = search (keeps_rules, refl, request_append_entries-Keeps) depth 30

pub sync_pack_req-Keeps : (start_idx gap : ℕ) → Keeps (sync_pack_req start_idx gap)
unfolding sync_pack_req
sync_pack_req-Keeps start_idx gap = search (keeps_rules, refl) depth 30

pub sync_log_to_new_srv-Keeps : (start_idx : ℕ) → Keeps (sync_log_to_new_srv start_idx)
unfolding sync_log_to_new_srv
sync_log_to_new_srv-Keeps start_idx =
    search
      (keeps_rules, refl, append_config-Keeps, sync_pack_req-Keeps, create_sync_snapshot_req-Keeps)
      depth 30

pub handle_leave_cluster_req-Keeps : (req : ReqMsg) → Keeps (handle_leave_cluster_req req)
unfolding handle_leave_cluster_req
handle_leave_cluster_req-Keeps req = search (keeps_rules, refl) depth 30

pub rm_srv_from_cluster-Keeps : (id : ℕ) → Keeps (rm_srv_from_cluster id)
unfolding rm_srv_from_cluster
rm_srv_from_cluster-Keeps id = search (keeps_rules, refl, append_config-Keeps) depth 30

pub joining_progress-Keeps : (idx : ℕ) (ctx : SnapshotSyncCtx) → Keeps (joining_progress idx ctx)
unfolding joining_progress
joining_progress-Keeps idx ctx = search (keeps_rules, refl) depth 30

pub handle_joining_snapshot-Keeps :
    (resp : RespMsg) (p : Peer) → Keeps (handle_joining_snapshot resp p)
unfolding handle_joining_snapshot
handle_joining_snapshot-Keeps resp p =
    search (keeps_rules, refl, joining_progress-Keeps, sync_log_to_new_srv-Keeps) depth 30

pub dispatch_ext-Keeps :
    (t : MsgType) (o : Option Peer) (resp : RespMsg) → Keeps (dispatch_ext t o resp)
unfolding dispatch_ext
dispatch_ext-Keeps MsgType.sync_log_response none resp =
    search
      (
        keeps_rules, refl, sync_log_to_new_srv-Keeps, rm_srv_from_cluster-Keeps,
        handle_joining_snapshot-Keeps,
      )
      depth 30
dispatch_ext-Keeps MsgType.sync_log_response (some p) resp =
    search
      (
        keeps_rules, refl, sync_log_to_new_srv-Keeps, rm_srv_from_cluster-Keeps,
        handle_joining_snapshot-Keeps,
      )
      depth 30
dispatch_ext-Keeps MsgType.join_cluster_response o resp =
    search
      (
        keeps_rules, refl, sync_log_to_new_srv-Keeps, rm_srv_from_cluster-Keeps,
        handle_joining_snapshot-Keeps,
      )
      depth 30
dispatch_ext-Keeps MsgType.leave_cluster_response o resp =
    search
      (
        keeps_rules, refl, sync_log_to_new_srv-Keeps, rm_srv_from_cluster-Keeps,
        handle_joining_snapshot-Keeps,
      )
      depth 30
dispatch_ext-Keeps MsgType.install_snapshot_response none resp =
    search
      (
        keeps_rules, refl, sync_log_to_new_srv-Keeps, rm_srv_from_cluster-Keeps,
        handle_joining_snapshot-Keeps,
      )
      depth 30
dispatch_ext-Keeps MsgType.install_snapshot_response (some p) resp =
    search
      (
        keeps_rules, refl, sync_log_to_new_srv-Keeps, rm_srv_from_cluster-Keeps,
        handle_joining_snapshot-Keeps,
      )
      depth 30
dispatch_ext-Keeps _ o resp =
    search
      (
        keeps_rules, refl, sync_log_to_new_srv-Keeps, rm_srv_from_cluster-Keeps,
        handle_joining_snapshot-Keeps,
      )
      depth 30

pub handle_ext_resp-Keeps : (resp : RespMsg) → Keeps (handle_ext_resp resp)
unfolding handle_ext_resp
handle_ext_resp-Keeps resp = search (keeps_rules, refl, dispatch_ext-Keeps) depth 30

pub give_up-Keeps : (req : ReqMsg) (p : Peer) → Keeps (give_up req p)
unfolding give_up
give_up-Keeps req p =
    search (keeps_rules, refl, drop_peer-Keeps, rm_srv_from_cluster-Keeps) depth 30

pub handle_ext_resp_err-Keeps : (req : ReqMsg) → Keeps (handle_ext_resp_err req)
unfolding handle_ext_resp_err
handle_ext_resp_err-Keeps req = search (keeps_rules, refl, give_up-Keeps) depth 30

pub on_retryable_req_err-Keeps : (id : ℕ) (req : ReqMsg) → Keeps (on_retryable_req_err id req)
unfolding on_retryable_req_err
on_retryable_req_err-Keeps id req = search (keeps_rules, refl) depth 30
