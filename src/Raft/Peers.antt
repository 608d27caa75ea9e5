-- ===== src/Raft/Peers.antt =====
-- peer.hxx: what a server keeps for each other server, and the table of peers.
use cornerstone.Common.{
  ℕ, ◌+◌, List, [], ◌∷◌, ◌++◌, Bool, true, false, Option, none, some, ◌==◌, if◌then◌else◌,
  min_int32, to_int32,
}
use cornerstone.Codec.Srv.{SrvConfig}
use cornerstone.Codec.Snapshot.{Snapshot, SnapshotSyncCtx}
use cornerstone.Raft.Types.{RaftParams, max_hb_interval}

pub record Peer : Type 0 where
  pub config : SrvConfig
  pub current_hb_interval : ℕ
  pub hb_interval : ℕ
  pub rpc_backoff : ℕ
  pub max_hb : ℕ
  pub next_log_idx : ℕ
  pub matched_idx : ℕ
  pub busy : Bool
  pub pending_commit : Bool
  pub hb_enabled : Bool
  pub snp_sync_ctx : Option SnapshotSyncCtx

-- The constructor.
unfoldable pub new_peer : SrvConfig → RaftParams → Peer
new_peer config params = record {
  config = config;
  current_hb_interval = params.heart_beat_interval;
  hb_interval = params.heart_beat_interval;
  rpc_backoff = params.rpc_failure_backoff;
  max_hb = max_hb_interval params;
  next_log_idx = 0;
  matched_idx = 0;
  busy = false;
  pending_commit = false;
  hb_enabled = false;
  snp_sync_ctx = none;
}

-- The flag of an idle peer is set, and the result is whether it was clear.
unfoldable pub make_busy : Peer → Peer × Bool
make_busy p = if p.busy then (p, false) else (record p { busy = true }, true)

unfoldable pub set_free : Peer → Peer
set_free p = record p { busy = false }

unfoldable pub set_next_log_idx : ℕ → Peer → Peer
set_next_log_idx idx p = record p { next_log_idx = idx }

unfoldable pub set_matched_idx : ℕ → Peer → Peer
set_matched_idx idx p = record p { matched_idx = idx }

unfoldable pub set_pending_commit : Peer → Peer
set_pending_commit p = record p { pending_commit = true }

-- The flag is cleared, and the result is whether it was set.
unfoldable pub clear_pending_commit : Peer → Peer × Bool
clear_pending_commit p =
    if p.pending_commit then (record p { pending_commit = false }, true) else (p, false)

unfoldable pub set_snapshot_in_sync : Option Snapshot → Peer → Peer
set_snapshot_in_sync none p = record p { snp_sync_ctx = none }
set_snapshot_in_sync (some s) p = record p { snp_sync_ctx = some (record { snp = s; offset = 0 }) }

-- `sync_ctx->set_offset(offset)`
unfoldable pub set_offset : ℕ → Peer → Peer
set_offset offset p = elim p.snp_sync_ctx [
  | none ↦ p
  | some ctx ↦ record p { snp_sync_ctx = some (record ctx { offset = offset }) }
]

unfoldable pub slow_down_hb : Peer → Peer
slow_down_hb p = record p {
  current_hb_interval = min_int32 p.max_hb (to_int32 (p.current_hb_interval + p.rpc_backoff));
}

unfoldable pub resume_hb_speed : Peer → Peer
resume_hb_speed p = record p { current_hb_interval = p.hb_interval }

unfoldable pub set_hb_enabled : Bool → Peer → Peer
set_hb_enabled on p = record p { hb_enabled = on }

-- `peers_`, in the order in which the map is walked.
abbrev pub Peers : Type 0
Peers = List (ℕ × Peer)

unfoldable pub find_peer : ℕ → Peers → Option Peer
find_peer id [] = none
find_peer id ((k, p) ∷ ps) = if k == id then some p else find_peer id ps

unfoldable pub update_peer : ℕ → (Peer → Peer) → Peers → Peers
update_peer id f [] = []
update_peer id f ((k, p) ∷ ps) = (k, if k == id then f p else p) ∷ update_peer id f ps

unfoldable pub erase_peer : ℕ → Peers → Peers
erase_peer id [] = []
erase_peer id ((k, p) ∷ ps) = let rest = erase_peer id ps in if k == id then rest else (k, p) ∷ rest

-- `insert` keeps an entry that is there.
unfoldable pub insert_peer : ℕ → Peer → Peers → Peers
insert_peer id p ps = elim (find_peer id ps) [ none ↦ ps ++ ((id, p) ∷ []) | some q ↦ ps ]

unfoldable pub peer_ids : Peers → List ℕ
peer_ids [] = []
peer_ids ((k, p) ∷ ps) = k ∷ peer_ids ps
