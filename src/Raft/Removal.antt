-- ===== src/Raft/Removal.antt =====
-- raft_server.cxx: the configurations that a leader proposes.
use cornerstone.Common.{
  ap, ℕ, ◌≡◌, ◌≢◌, refl, List, [], ◌∷◌, true, false, none, ◌==◌, arith, inl, inr, Bool-cases, ◌++◌,
  ◌<◌, ◌^◌, length, if◌then◌else◌, ==→eq, eq→==,
}
use cornerstone.Codec.Srv.{SrvConfig}
use cornerstone.Buffer.{Buffer, ok}
use cornerstone.Buffer.Laws.{cursor, Fits}
use cornerstone.Codec.Entry.{LogEntry, conf}
use cornerstone.Codec.Config.{
  ClusterConfig, get_server, find_server, serialize, deserialize, image, IsConfig, serialize-image,
  config_deserialize-serialize,
}
use cornerstone.Log
use cornerstone.Raft.Run.{final}
use cornerstone.Raft.Loops.{log_of}
use cornerstone.Raft.Membership.{front}
use cornerstone.Raft.LogKept.{request_append_entries-LogKept}
use cornerstone.Raft.Server.{Server}
use cornerstone.Raft.Joining.{servers_without, config_without, append_config, rm_srv_from_cluster}

without_gone : (id : ℕ) (cs : List SrvConfig) → find_server (servers_without id cs) id ≡ none
unfolding find_server servers_without
without_gone id [] = refl
without_gone id (c ∷ cs) = elim (Bool-cases (c.id == id)) [
  | inl t ↦ rw t (without_gone id cs)
  | inr t ↦ rw (t, t) (without_gone id cs)
]

differs : (a id k : ℕ) → k ≢ id → (a == id) ≡ true → (a == k) ≡ false
differs a id k n t = ground (arith, n, t)

without_kept :
    (id k : ℕ)
    → k ≢ id
    → (cs : List SrvConfig) → find_server (servers_without id cs) k ≡ find_server cs k
unfolding find_server servers_without
without_kept id k n [] = refl
without_kept id k n (c ∷ cs) = elim (Bool-cases (c.id == id)) [
  | inl t ↦ rw (t, differs c.id id k n t) (without_kept id k n cs)
  | inr t ↦ elim (Bool-cases (c.id == k)) [
    | inl u ↦ rw (t, u) refl
    | inr u ↦ rw (t, u) (without_kept id k n cs)
  ]
]

config_without-servers :
    (s : Server) (id k : ℕ)
    → get_server (config_without s id) k ≡ (if k == id then none else get_server s.config k)
unfolding config_without get_server
config_without-servers s id k = elim (Bool-cases (k == id)) [
  | inl y ↦ rw (y, ==→eq k id y) (without_gone id s.config.servers)
  | inr y ↦ rw y (without_kept id k (λ e. cc (y, eq→== k id e)) s.config.servers)
]

-- The entry for a proposed configuration.
abbrev proposed : ℕ → ClusterConfig → LogEntry
proposed term c = record { term = term; val_type = conf; buf = image c }

rm_srv_from_cluster-log :
    (s : Server) (id : ℕ)
    → serialize (config_without s id) ≡ ok (cursor [] (image (config_without s id)))
    → (final (rm_srv_from_cluster id s)).log
      ≡ log_of s.log.start (s.log.entries ++ (proposed s.state.term (config_without s id) ∷ []))
unfolding rm_srv_from_cluster append_config Log.append
rm_srv_from_cluster-log s id e = rw e (
    ap (λ p. p.0)
      (request_append_entries-LogKept.at (record s {
        config_changing = true;
        log =
            log_of s.log.start
              (s.log.entries ++ (proposed s.state.term (config_without s id) ∷ []));
      })))

-- A leader that removes a server appends one entry to its log, of its term: a configuration that is read
-- back with the index of the entry, the index of the configuration before it, and every server but the
-- removed one as before. Its numbers have their widths, its endpoints can be written, and it fits a block.
pub rm_srv_from_cluster-proposes :
    (s : Server) (id : ℕ)
    → IsConfig (config_without s id)
    → length (config_without s id).servers < 2 ^ 31
    → Fits (length (image (config_without s id)))
    → (e : LogEntry) × (c : ClusterConfig) × (rest : Buffer) × ((final
          (rm_srv_from_cluster id s)).log
        ≡ log_of s.log.start (s.log.entries ++ (e ∷ [])))
      × (e.term ≡ s.state.term)
      × (e.val_type ≡ conf)
      × (deserialize (front e.buf) ≡ ok (c, rest))
      × (c.log_idx ≡ Log.next_slot s.log)
      × (c.prev_log_idx ≡ s.config.log_idx)
      × ((k : ℕ) → get_server c k ≡ (if k == id then none else get_server s.config k))
unfolding config_without
rm_srv_from_cluster-proposes s id v few h = (
  proposed s.state.term (config_without s id),
  config_without s id,
  cursor (image (config_without s id)) [],
  rm_srv_from_cluster-log s id (serialize-image (config_without s id) few h),
  refl,
  refl,
  (rw (serialize-image (config_without s id) few h) at
      (config_deserialize-serialize (config_without s id) v few h)),
  refl,
  refl,
  config_without-servers s id,
)
