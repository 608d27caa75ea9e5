-- ===== src/Raft/Replication.antt =====
-- raft_server.cxx: the requests that a leader sends to a peer, and `commit`.
use cornerstone.Common.{
  ℕ, List, length, [], ◌∷◌, Bool, true, false, not, ◌&&◌, Option, none, some, ltb, leb, ◌==◌,
  if◌then◌else◌, add64, sub64, to_int32, to_ulong, min_int32, minus_one, ◌*◌,
}
use cornerstone.Buffer
use cornerstone.Codec.Entry.{LogEntry, snp_sync_req}
use cornerstone.Codec.Snapshot.{Snapshot, SnapshotSyncCtx, SnapshotSyncReq, serialize_req}
use cornerstone.Log
use cornerstone.Raft.Types.{ReqMsg, MsgType}
use cornerstone.Raft.Peers.{
  Peer, peer_ids, make_busy, set_next_log_idx, set_pending_commit, set_snapshot_in_sync,
}
use cornerstone.Raft.Server.{
  Server, M, ◌>>=◌, ◌>>◌, pure, gets, modify, emit, when, for_each, halt, lift, deref, send,
  notify_commit, peer_handler, PeerRef, member, get_peer, modify_peer, is_leader,
}

-- The term of the last snapshot, if it ends at the index; otherwise the server stops.
unfoldable pub term_of_snapshot : ℕ → Option Snapshot → M ℕ
term_of_snapshot log_idx none = halt minus_one minus_one
term_of_snapshot log_idx (some snp) =
    if log_idx == snp.last_log_idx then pure snp.last_log_term else halt minus_one minus_one

unfoldable pub term_for_log : ℕ → M ℕ
term_for_log log_idx = if log_idx == 0 then pure 0 else do
  log ← gets (λ s. s.log)
  if leb (Log.start_index log) log_idx
      then lift (Log.term_at log log_idx)
      else (do last ← gets (λ s. s.host.last_snapshot); term_of_snapshot log_idx last)

abbrev pub default_snapshot_sync_block_size : ℕ
default_snapshot_sync_block_size = 4 * 1024

unfoldable pub get_snapshot_sync_block_size : Server → ℕ
get_snapshot_sync_block_size s =
    let block_size = s.params.snapshot_block_size in
    if block_size == 0 then default_snapshot_sync_block_size else block_size

-- Whether the last snapshot is to be taken in place of the one in sync.
unfoldable pub needs_snapshot : Option SnapshotSyncCtx → Option Snapshot → Bool
needs_snapshot none last = true
needs_snapshot (some ctx) none = false
needs_snapshot (some ctx) (some last) = ltb ctx.snp.last_log_idx last.last_log_idx

-- The checks on the snapshot that is taken.
unfoldable pub choose_snapshot : PeerRef → ℕ → Option Snapshot → M (Unit {0})
choose_snapshot r last_log_idx none = halt minus_one minus_one
choose_snapshot r last_log_idx (some snp) =
    if ltb snp.last_log_idx last_log_idx
    then halt minus_one minus_one
    else if ltb snp.snp_size 1
    then halt minus_one minus_one
    else modify_peer r (set_snapshot_in_sync (some snp))

unfoldable pub create_sync_snapshot_req : PeerRef → ℕ → ℕ → ℕ → M ReqMsg
create_sync_snapshot_req r last_log_idx term commit_idx = do
  found ← gets (get_peer r)
  p ← deref found
  last ← gets (λ s. s.host.last_snapshot)
  when (needs_snapshot p.snp_sync_ctx last) (choose_snapshot r last_log_idx last)
  found ← gets (get_peer r)
  p ← deref found
  ctx ← deref p.snp_sync_ctx
  let snp = ctx.snp
  let sz_left = to_int32 (sub64 snp.snp_size ctx.offset)
  blk_sz ← gets get_snapshot_sync_block_size
  let block = to_ulong (min_int32 blk_sz sz_left)
  room ← lift (Buffer.alloc block)
  read ← gets (λ s. s.host.read_snapshot_data snp ctx.offset block)
  if ltb (to_ulong read.0) block then halt minus_one minus_one else do
    let sync_req : SnapshotSyncReq = record {
      snp = snp;
      offset = ctx.offset;
      data_bytes = read.1;
      done = leb snp.snp_size (add64 ctx.offset block);
    }
    bytes ← lift (serialize_req sync_req)
    id ← gets (λ s. s.id)
    pure (record {
      term = term;
      type = MsgType.install_snapshot_request;
      src = id;
      dst = p.config.id;
      last_log_term = snp.last_log_term;
      last_log_idx = snp.last_log_idx;
      commit_idx = commit_idx;
      log_entries = record { term = term; val_type = snp_sync_req; buf = bytes.bytes } ∷ [];
    })

unfoldable pub or_empty : Option (List LogEntry) → List LogEntry
or_empty none = []
or_empty (some es) = es

unfoldable pub min_ulong : ℕ → ℕ → ℕ
min_ulong a b = if ltb b a then b else a

-- The entries from the index on, at most `max_append_size` of them.
unfoldable pub entries_to_send : Log.Log → ℕ → ℕ → Buffer.Result (List LogEntry)
entries_to_send log last_log_idx max_append =
    let cur_nxt_idx = Log.next_slot log in
    let end_idx = min_ulong cur_nxt_idx (add64 (add64 last_log_idx 1) (to_ulong max_append)) in
    if leb cur_nxt_idx (add64 last_log_idx 1)
    then Buffer.ok []
    else Buffer.◌>>=◌ (Log.log_entries log (add64 last_log_idx 1) end_idx)
        (λ es. Buffer.ok (or_empty es))

-- A peer whose next index is not known yet starts at the end of the log.
unfoldable pub start_at : ℕ → Peer → Peer
start_at cur_nxt_idx p = if p.next_log_idx == 0 then set_next_log_idx cur_nxt_idx p else p

unfoldable pub create_append_entries_req : PeerRef → M ReqMsg
create_append_entries_req r = do
  log ← gets (λ s. s.log)
  commit_idx ← gets (λ s. s.quick_commit_idx)
  st ← gets (λ s. s.state)
  let cur_nxt_idx = Log.next_slot log
  modify_peer r (start_at cur_nxt_idx)
  found ← gets (get_peer r)
  p ← deref found
  let last_log_idx = sub64 p.next_log_idx 1
  if leb cur_nxt_idx last_log_idx
      then halt minus_one minus_one
      else if ltb 0 last_log_idx && ltb last_log_idx (sub64 (Log.start_index log) 1)
      then create_sync_snapshot_req r last_log_idx st.term commit_idx
      else (do
        last_log_term ← term_for_log last_log_idx
        params ← gets (λ s. s.params)
        entries ← lift (entries_to_send log last_log_idx params.max_append_size)
        id ← gets (λ s. s.id)
        pure (record {
          term = st.term;
          type = MsgType.append_entries_request;
          src = id;
          dst = p.config.id;
          last_log_term = last_log_term;
          last_log_idx = last_log_idx;
          commit_idx = commit_idx;
          log_entries = entries;
        }))

-- `request_append_entries(peer&)`: nothing is sent to a busy peer.
unfoldable pub request_append_entries_to : PeerRef → M Bool
request_append_entries_to r = do
  found ← gets (get_peer r)
  p ← deref found
  if p.busy then pure false else do
    modify_peer r (λ q. (make_busy q).0)
    msg ← create_append_entries_req r
    emit (send p.config.id peer_handler msg)
    pure true

-- One round of the loop in `commit`.
unfoldable pub notify_peer : ℕ → M (Unit {0})
notify_peer id = do
  sent ← request_append_entries_to (member id)
  when (not sent) (modify_peer (member id) set_pending_commit)

unfoldable pub commit : ℕ → M (Unit {0})
commit target_idx = do
  quick ← gets (λ s. s.quick_commit_idx)
  when (ltb quick target_idx) (do
    modify (λ s. record s { quick_commit_idx = target_idx })
    role ← gets (λ s. s.role)
    ids ← gets (λ s. peer_ids s.peers)
    when (is_leader role) (for_each ids notify_peer))
  s ← gets (λ s. s)
  when
      (ltb s.state.commit_idx (sub64 (Log.next_slot s.log) 1)
        && ltb s.state.commit_idx s.quick_commit_idx)
      (emit notify_commit)

unfoldable pub request_one : ℕ → M (Unit {0})
request_one id = request_append_entries_to (member id) >>= λ sent. pure tt

-- `request_append_entries()`
unfoldable pub request_append_entries : M (Unit {0})
request_append_entries = do
  s ← gets (λ s. s)
  if length s.peers == 0
      then commit (sub64 (Log.next_slot s.log) 1)
      else for_each (peer_ids s.peers) request_one
