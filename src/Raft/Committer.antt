-- ===== src/Raft/Committer.antt =====
-- raft_server.cxx: the committing thread.
use cornerstone.Common.{
  ℕ, zero, suc, ◌-◌, List, Bool, false, ◌&&◌, ltb, if◌then◌else◌, add64, sub64, is_some,
}
use cornerstone.Codec.Entry.{LogEntry, LogValType, app_log, conf}
use cornerstone.Codec.Config
use cornerstone.Codec.Config.{ClusterConfig, get_server}
use cornerstone.Log
use cornerstone.Raft.Types.{set_commit_idx}
use cornerstone.Raft.Server.{
  Server, M, ◌>>=◌, ◌>>◌, pure, gets, modify, emit, when, lift, deref, save_state, save_config,
  sm_commit,
}
use cornerstone.Raft.Membership.{reconfigure, front}
use cornerstone.Raft.Snapshots.{snapshot_and_compact, or_halt}

-- A committed configuration takes effect.
unfoldable pub commit_config : ClusterConfig → M (Unit {0})
commit_config new_conf = do
  emit (save_config new_conf)
  modify (λ s. record s { config_changing = false })
  s ← gets (λ s. s)
  when (ltb s.config.log_idx new_conf.log_idx) (reconfigure new_conf)
  s ← gets (λ s. s)
  when (s.catching_up && is_some (get_server new_conf s.id))
      (modify (λ t. record t { catching_up = false }))

unfoldable pub apply_typed : ℕ → List ℕ → LogValType → M (Unit {0})
apply_typed idx buf app_log = emit (sm_commit idx buf)
apply_typed idx buf conf = do read ← lift (Config.deserialize (front buf)); commit_config read.0
apply_typed idx buf _ = pure tt

-- What committing an entry does besides moving the index.
unfoldable pub apply_entry : ℕ → LogEntry → M (Unit {0})
apply_entry idx e = apply_typed idx e.buf e.val_type

-- The entry at `idx`.
unfoldable pub commit_entry : ℕ → M (Unit {0})
commit_entry idx = do
  log ← gets (λ s. s.log)
  found ← lift (Log.entry_at log idx)
  e ← deref found
  apply_entry idx e
  modify (λ s. record s { state = set_commit_idx s.state idx })
  snapshot_and_compact idx

unfoldable pub can_commit : Server → ℕ → Bool
can_commit s idx = ltb idx s.quick_commit_idx && ltb idx (sub64 (Log.next_slot s.log) 1)

-- One round of the inner loop, whose further rounds are `next`.
unfoldable pub commit_one : ℕ → M (Unit {0}) → M (Unit {0})
commit_one current next = do
  s ← gets (λ s. s)
  if can_commit s current then (do commit_entry (add64 current 1); next) else pure tt

-- The inner loop; `fuel` bounds its rounds.
unfoldable pub commit_loop : ℕ → ℕ → M (Unit {0})
commit_loop zero current = pure tt
commit_loop (suc fuel) current = commit_one current (commit_loop fuel (add64 current 1))

-- One round of `commit_in_bg` once there is something to commit; any exception ends the process.
-- The rounds are bounded by what there is to commit when it starts.
unfoldable pub commit_round : M (Unit {0})
commit_round = or_halt (do
  s ← gets (λ s. s)
  commit_loop (s.quick_commit_idx - s.state.commit_idx) s.state.commit_idx
  st ← gets (λ t. t.state)
  emit (save_state st))
