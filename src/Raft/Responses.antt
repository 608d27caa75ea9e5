-- ===== src/Raft/Responses.antt =====
-- raft_server.cxx: the answers of the peers, and the heartbeat.
use cornerstone.Common.{
  ℕ, ◌+◌, ◌/◌, List, [], ◌∷◌, length, get_elem?, Bool, true, false, ◌&&◌, ◌||◌, none, some, ltb,
  leb, if◌then◌else◌, add64, sub64,
}
use cornerstone.Codec.Snapshot.{SnapshotSyncCtx}
use cornerstone.Log
use cornerstone.Raft.Types.{RespMsg}
use cornerstone.Raft.Peers.{
  Peer, Peers, set_next_log_idx, set_matched_idx, set_snapshot_in_sync, set_offset,
  clear_pending_commit,
}
use cornerstone.Raft.Server.{
  Server, M, ◌>>=◌, ◌>>◌, on_some, pure, gets, emit, when, deref, schedule_hb, PeerRef, member,
  get_peer, modify_peer, is_leader,
}
use cornerstone.Raft.Replication.{request_append_entries_to, commit}

-- `std::sort` with `std::greater`
unfoldable pub insert_desc : ℕ → List ℕ → List ℕ
insert_desc x [] = x ∷ []
insert_desc x (y ∷ ys) = if ltb x y then y ∷ insert_desc x ys else x ∷ (y ∷ ys)

unfoldable pub sort_desc : List ℕ → List ℕ
sort_desc [] = []
sort_desc (x ∷ xs) = insert_desc x (sort_desc xs)

unfoldable pub matched_of : Peers → List ℕ
matched_of [] = []
matched_of ((k, p) ∷ ps) = p.matched_idx ∷ matched_of ps

-- `matched_indexes`: the leader's own last index, and those of the peers.
unfoldable pub matched_indexes : Server → List ℕ
matched_indexes s = sub64 (Log.next_slot s.log) 1 ∷ matched_of s.peers

unfoldable pub nth_or_zero : List ℕ → ℕ → ℕ
nth_or_zero xs i = elim (get_elem? xs i) [ none ↦ 0 | some x ↦ x ]

-- The element in the middle of the sorted array.
unfoldable pub median_matched : Server → ℕ
median_matched s = nth_or_zero (sort_desc (matched_indexes s)) ((length s.peers + 1) / 2)

-- `p->clear_pending_commit() || resp.get_next_idx() < log_store_->next_slot()`
unfoldable pub wants_more : PeerRef → ℕ → M Bool
wants_more r next_idx = do
  found ← gets (get_peer r)
  p ← deref found
  modify_peer r (λ q. (clear_pending_commit q).0)
  next ← gets (λ s. Log.next_slot s.log)
  pure (p.pending_commit || ltb next_idx next)

-- Where a peer that refused is to go on: at the index that it named, or one further back.
unfoldable pub move_back : ℕ → Peer → Peer
move_back next_idx p =
    if ltb 0 next_idx && ltb next_idx p.next_log_idx
    then set_next_log_idx next_idx p
    else set_next_log_idx (sub64 p.next_log_idx 1) p

-- Nothing is sent once this server does not lead any more.
unfoldable pub catch_up : PeerRef → Bool → M (Unit {0})
catch_up r need_to_catchup = do
  role ← gets (λ s. s.role)
  when (is_leader role && need_to_catchup) (request_append_entries_to r >>= λ sent. pure tt)

unfoldable pub handle_append_entries_resp : RespMsg → M (Unit {0})
handle_append_entries_resp resp = do
  found ← gets (get_peer (member resp.src))
  on_some found (pure tt) (λ p.
      if resp.accepted
      then (do
        modify_peer (member resp.src) (set_next_log_idx resp.next_idx)
        modify_peer (member resp.src) (set_matched_idx (sub64 resp.next_idx 1))
        target ← gets median_matched
        commit target
        more ← wants_more (member resp.src) resp.next_idx
        catch_up (member resp.src) more)
      else (do
        modify_peer (member resp.src) (move_back resp.next_idx)
        catch_up (member resp.src) true))

-- The part for a snapshot that the peer has taken in, up to `next_idx`.
unfoldable pub snapshot_progress : PeerRef → ℕ → SnapshotSyncCtx → M Bool
snapshot_progress r next_idx ctx =
    if leb ctx.snp.snp_size next_idx
    then (do
      modify_peer r (set_next_log_idx (add64 ctx.snp.last_log_idx 1))
      modify_peer r (set_matched_idx ctx.snp.last_log_idx)
      modify_peer r (set_snapshot_in_sync none)
      wants_more r next_idx)
    else (do modify_peer r (set_offset next_idx); pure true)

unfoldable pub handle_install_snapshot_resp : RespMsg → M (Unit {0})
handle_install_snapshot_resp resp = do
  found ← gets (get_peer (member resp.src))
  on_some found (pure tt) (λ p.
      if resp.accepted
      then (do
        more ←
            on_some p.snp_sync_ctx (pure false)
              (λ ctx. snapshot_progress (member resp.src) resp.next_idx ctx)
        catch_up (member resp.src) more)
      else catch_up (member resp.src) true)

unfoldable pub handle_hb_timeout : ℕ → M (Unit {0})
handle_hb_timeout id = do
  role ← gets (λ s. s.role)
  when (is_leader role) (do
    sent ← request_append_entries_to (member id)
    found ← gets (get_peer (member id))
    p ← deref found
    when p.hb_enabled (emit (schedule_hb id p.current_hb_interval)))
