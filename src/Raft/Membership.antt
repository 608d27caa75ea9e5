-- ===== src/Raft/Membership.antt =====
-- raft_server.cxx: servers that join and leave.
use cornerstone.Common.{
  ℕ, ◌+◌, ◌%◌, ◌^◌, List, [], ◌∷◌, ◌++◌, length, Bool, true, false, not, ◌&&◌, ◌||◌, Option, none,
  some, ◌==◌, if◌then◌else◌, sub64, is_some,
}
use cornerstone.Buffer.{Buffer, get_int}
use cornerstone.Codec.Entry.{LogEntry, LogValType, conf, cluster_server, log_pack}
use cornerstone.Codec.Srv
use cornerstone.Codec.Srv.{SrvConfig}
use cornerstone.Codec.Config
use cornerstone.Codec.Config.{ClusterConfig, get_server}
use cornerstone.Log
use cornerstone.Raft.Types.{MsgType, ReqMsg, RespMsg, resp_msg, accept}
use cornerstone.Raft.Peers.{
  Peer, Peers, new_peer, find_peer, insert_peer, erase_peer, peer_ids, set_next_log_idx,
}
use cornerstone.Raft.Server.{
  Server, M, ◌>>=◌, ◌>>◌, on_some, pure, gets, modify, emit, when, lift, deref, send, save_config,
  system_exit, ext_handler, member, get_peer, modify_peer, is_leader,
}
use cornerstone.Raft.Timers.{enable_hb_for_peer, disable_hb}
use cornerstone.Raft.Replication.{commit}

abbrev pub front : List ℕ → Buffer
front bytes = record { bytes = bytes; pos = 0 }

-- The servers of the new configuration that are not peers yet, and are not this one.
unfoldable pub srvs_added : ℕ → Peers → List SrvConfig → List SrvConfig
srvs_added id peers [] = []
srvs_added id peers (c ∷ cs) =
    let rest = srvs_added id peers cs in
    if not (is_some (find_peer c.id peers)) && not (id == c.id) then c ∷ rest else rest

-- The peers, and then this server, that the new configuration does not name.
unfoldable pub peers_removed : ClusterConfig → List ℕ → List ℕ
peers_removed config [] = []
peers_removed config (k ∷ ks) =
    let rest = peers_removed config ks in if is_some (get_server config k) then rest else k ∷ rest

unfoldable pub srvs_removed : ℕ → Peers → ClusterConfig → List ℕ
srvs_removed id peers config =
    peers_removed config (peer_ids peers)
    ++ (if is_some (get_server config id) then [] else id ∷ [])

-- The server that was asked to join is in: it goes on where the sync of its log ended.
unfoldable pub take_over_joining : ℕ → Option Peer → M (Unit {0})
take_over_joining id none = pure tt
take_over_joining id (some j) = when (j.config.id == id) (do
  modify_peer (member id) (set_next_log_idx j.next_log_idx)
  modify (λ s. record s { srv_to_join = none }))

unfoldable pub add_peer : SrvConfig → M (Unit {0})
add_peer c = do
  modify (λ s. record s {
    peers = insert_peer c.id (set_next_log_idx (Log.next_slot s.log) (new_peer c s.params)) s.peers;
  })
  role ← gets (λ s. s.role)
  when (is_leader role) (do
    enable_hb_for_peer (member c.id) c.id
    waiting ← gets (λ s. s.srv_to_join)
    take_over_joining c.id waiting)

unfoldable pub add_peers : List SrvConfig → M (Unit {0})
add_peers [] = pure tt
add_peers (c ∷ cs) = do add_peer c; add_peers cs

unfoldable pub drop_peer : ℕ → M (Unit {0})
drop_peer id = do
  found ← gets (get_peer (member id))
  when (is_some found) (do disable_hb id; modify (λ s. record s { peers = erase_peer id s.peers }))

-- One round of the loop that removes servers, whose further rounds are `next`.
unfoldable pub remove_round : ClusterConfig → ℕ → M Bool → M Bool
remove_round config k next = do
  s ← gets (λ s. s)
  if k == s.id && not s.catching_up
      then (do emit (save_config config); emit (system_exit 0); pure false)
      else (do drop_peer k; next)

-- Whether all were removed; at this server's own id the loop, and `reconfigure`, end.
unfoldable pub remove_srvs : ClusterConfig → List ℕ → M Bool
remove_srvs config [] = pure true
remove_srvs config (k ∷ ks) = remove_round config k (remove_srvs config ks)

unfoldable pub reconfigure : ClusterConfig → M (Unit {0})
reconfigure config = do
  s ← gets (λ s. s)
  let added = srvs_added s.id s.peers config.servers
  let removed = srvs_removed s.id s.peers config
  add_peers added
  all_removed ← remove_srvs config removed
  when all_removed (modify (λ t. record t { config = config }))

-- The one entry of a request that carries one.
unfoldable pub only_entry : List LogEntry → Option LogEntry
only_entry (e ∷ []) = some e
only_entry _ = none

abbrev pub is_conf : LogValType → Bool
is_conf conf = true
is_conf _ = false

abbrev pub is_cluster_server : LogValType → Bool
is_cluster_server cluster_server = true
is_cluster_server _ = false

abbrev pub is_log_pack : LogValType → Bool
is_log_pack log_pack = true
is_log_pack _ = false

-- The entry, if it is the only one and of the type that is asked for.
unfoldable pub checked_entry : (LogEntry → Bool) → List LogEntry → Option LogEntry
checked_entry test es = elim (only_entry es) [
  | none ↦ none
  | some e ↦ if test e then some e else none
]

unfoldable pub leave_req : Server → ℕ → ReqMsg
leave_req s srv_id = record {
  term = s.state.term;
  type = MsgType.leave_cluster_request;
  src = s.id;
  dst = srv_id;
  last_log_term = 0;
  last_log_idx = sub64 (Log.next_slot s.log) 1;
  commit_idx = s.quick_commit_idx;
  log_entries = [];
}

unfoldable pub handle_rm_srv_req : ReqMsg → M RespMsg
handle_rm_srv_req req = do
  s ← gets (λ s. s)
  let resp = resp_msg s.state.term MsgType.remove_server_response s.id s.leader_id 0
  on_some (checked_entry (λ e. length e.buf == 4) req.log_entries) (pure resp) (λ e.
      if not (is_leader s.role) || s.config_changing then pure resp else (do
        read ← lift (get_int (front e.buf))
        let srv_id = read.0
        if srv_id == s.id || not (is_some (find_peer srv_id s.peers)) then pure resp else (do
          emit (send srv_id ext_handler (leave_req s srv_id))
          pure (accept resp (Log.next_slot s.log)))))

unfoldable pub invite_srv_to_join_cluster : M (Unit {0})
invite_srv_to_join_cluster = do
  s ← gets (λ s. s)
  p ← deref s.srv_to_join
  bytes ← lift (Config.serialize s.config)
  emit (
      send p.config.id ext_handler (record {
        term = s.state.term;
        type = MsgType.join_cluster_request;
        src = s.id;
        dst = p.config.id;
        last_log_term = 0;
        last_log_idx = sub64 (Log.next_slot s.log) 1;
        commit_idx = s.quick_commit_idx;
        log_entries = record { term = s.state.term; val_type = conf; buf = bytes.bytes } ∷ [];
      }))

unfoldable pub handle_add_srv_req : ReqMsg → M RespMsg
handle_add_srv_req req = do
  s ← gets (λ s. s)
  let resp = resp_msg s.state.term MsgType.add_server_response s.id s.leader_id 0
  on_some (checked_entry (λ e. is_cluster_server e.val_type) req.log_entries) (pure resp) (λ e.
      if not (is_leader s.role) then pure resp else (do
        read ← lift (Srv.deserialize (front e.buf))
        let srv = read.0
        if is_some (find_peer srv.id s.peers) || s.id == srv.id || s.config_changing
            then pure resp
            else (do
              modify (λ t. record t {
                conf_to_add = some srv;
                srv_to_join = some (new_peer srv t.params);
              })
              invite_srv_to_join_cluster
              next ← gets (λ t. Log.next_slot t.log)
              pure (accept resp next))))

unfoldable pub handle_log_sync_req : ReqMsg → M RespMsg
handle_log_sync_req req = do
  s ← gets (λ s. s)
  let resp = resp_msg s.state.term MsgType.sync_log_response s.id req.src 0
  on_some (checked_entry (λ e. is_log_pack e.val_type) req.log_entries) (pure resp) (λ e.
      if not s.catching_up then pure resp else (do
        log ← lift (s.host.apply_pack s.log ((req.last_log_idx + 1) % 2 ^ 64) e.buf)
        modify (λ t. record t { log = log })
        commit (sub64 (Log.next_slot log) 1)
        next ← gets (λ t. Log.next_slot t.log)
        pure (accept resp next)))
