-- ===== src/Raft/Append.antt =====
-- raft_server.cxx: entries from the leader and from clients.
use cornerstone.Common.{
  ℕ, List, [], ◌∷◌, length, Bool, true, false, not, ◌||◌, ltb, ◌==◌, if◌then◌else◌, add64, sub64,
  minus_one,
}
use cornerstone.Codec.Entry.{LogEntry, LogValType, app_log, conf}
use cornerstone.Log
use cornerstone.Raft.Types.{MsgType, ReqMsg, RespMsg, resp_msg, accept}
use cornerstone.Raft.Server.{
  M, ◌>>=◌, ◌>>◌, pure, gets, modify, emit, when, halt, lift, deref, sm_pre_commit, sm_rollback,
  is_leader, is_candidate,
}
use cornerstone.Raft.Timers.{restart_election_timer, become_follower}
use cornerstone.Raft.Replication.{term_for_log, request_append_entries, commit}

-- The role at a message from a leader of this server's own term.
unfoldable pub hear_leader : M (Unit {0})
hear_leader = do
  role ← gets (λ s. s.role)
  if is_candidate role
      then become_follower
      else if is_leader role
      then halt minus_one minus_one
      else restart_election_timer

-- The test of the entry before the new ones.
unfoldable pub prev_okay : ReqMsg → M Bool
prev_okay req = if req.last_log_idx == 0 then pure true else do
  log ← gets (λ s. s.log)
  if ltb req.last_log_idx (Log.next_slot log)
      then (do term ← term_for_log req.last_log_idx; pure (req.last_log_term == term))
      else pure false

-- One round of the first loop, whose further rounds are `next`.
unfoldable pub skip_round :
    ℕ → LogEntry → List LogEntry → M (ℕ × List LogEntry) → M (ℕ × List LogEntry)
skip_round idx e es next = do
  log ← gets (λ s. s.log)
  if ltb idx (Log.next_slot log)
      then (do
        found ← lift (Log.entry_at log idx)
        old ← deref found
        if old.term == e.term then next else pure (idx, e ∷ es))
      else pure (idx, e ∷ es)

-- The first loop: what of the entries is not in the log with the same term, and where it goes.
unfoldable pub skip_overlap : ℕ → List LogEntry → M (ℕ × List LogEntry)
skip_overlap idx [] = pure (idx, [])
skip_overlap idx (e ∷ es) = skip_round idx e es (skip_overlap (add64 idx 1) es)

unfoldable pub undo_typed : ℕ → List ℕ → LogValType → M (Unit {0})
undo_typed idx buf app_log = emit (sm_rollback idx buf)
undo_typed idx buf conf = modify (λ s. record s { config_changing = false })
undo_typed idx buf _ = pure tt

-- What happens to an entry that is written over.
unfoldable pub undo_entry : ℕ → LogEntry → M (Unit {0})
undo_entry idx old = undo_typed idx old.buf old.val_type

-- One round of the second loop, whose further rounds are `next`.
unfoldable pub write_round : ℕ → LogEntry → List LogEntry → M (List LogEntry) → M (List LogEntry)
write_round idx e es next = do
  log ← gets (λ s. s.log)
  if ltb idx (Log.next_slot log)
      then (do
        found ← lift (Log.entry_at log idx)
        old ← deref found
        undo_entry idx old
        log' ← lift (Log.write_at log idx e)
        modify (λ s. record s { log = log' })
        next)
      else pure (e ∷ es)

-- The second loop: the entries that are left, while the log holds one at the index.
unfoldable pub write_over : ℕ → List LogEntry → M (List LogEntry)
write_over idx [] = pure []
write_over idx (e ∷ es) = write_round idx e es (write_over (add64 idx 1) es)

unfoldable pub announce_typed : ℕ → List ℕ → LogValType → M (Unit {0})
announce_typed idx buf conf = modify (λ s. record s { config_changing = true })
announce_typed idx buf _ = emit (sm_pre_commit idx buf)

-- What happens to a new entry.
unfoldable pub announce_entry : ℕ → LogEntry → M (Unit {0})
announce_entry idx e = announce_typed idx e.buf e.val_type

-- One round of the third loop.
unfoldable pub append_entry : LogEntry → M (Unit {0})
append_entry e = do
  idx ← gets (λ s. Log.next_slot s.log)
  modify (λ s. record s { log = Log.append s.log e })
  announce_entry idx e

-- The third loop.
unfoldable pub append_new : List LogEntry → M (Unit {0})
append_new [] = pure tt
append_new (e ∷ es) = append_entry e >> append_new es

unfoldable pub store_entries : ℕ → List LogEntry → M (Unit {0})
store_entries idx entries = do
  left ← skip_overlap idx entries
  fresh ← write_over left.0 left.1
  append_new fresh

unfoldable pub handle_append_entries : ReqMsg → M RespMsg
handle_append_entries req = do
  st ← gets (λ s. s.state)
  when (req.term == st.term) hear_leader
  s ← gets (λ s. s)
  let resp =
      resp_msg s.state.term MsgType.append_entries_response s.id req.src (Log.next_slot s.log)
  okay ← prev_okay req
  if ltb req.term s.state.term || not okay then pure resp else do
    store_entries (add64 req.last_log_idx 1) req.log_entries
    modify (λ t. record t { leader_id = req.src })
    commit req.commit_idx
    pure (accept resp (add64 (add64 req.last_log_idx (length req.log_entries)) 1))

-- An entry of a client goes into the log as it came.
unfoldable pub append_client_entry : LogEntry → M (Unit {0})
append_client_entry e = do
  modify (λ s. record s { log = Log.append s.log e })
  next ← gets (λ s. Log.next_slot s.log)
  emit (sm_pre_commit (sub64 next 1) e.buf)

unfoldable pub append_client : List LogEntry → M (Unit {0})
append_client [] = pure tt
append_client (e ∷ es) = append_client_entry e >> append_client es

unfoldable pub handle_cli_req : ReqMsg → M RespMsg
handle_cli_req req = do
  s ← gets (λ s. s)
  let resp = resp_msg s.state.term MsgType.append_entries_response s.id s.leader_id 0
  if not (is_leader s.role) then pure resp else do
    append_client req.log_entries
    request_append_entries
    next ← gets (λ t. Log.next_slot t.log)
    pure (accept resp next)
