-- ===== src/Raft/State/Logs.antt =====
-- raft_server.cxx: entries that come in, and the answers of peers.
use cornerstone.Common.{ℕ, add64, refl, Bool, List, [], ◌∷◌}
use cornerstone.Raft.Server.{M, PeerRef}
use cornerstone.Raft.Types.{ReqMsg, RespMsg}
use cornerstone.Codec.Entry.{LogEntry, LogValType, app_log, conf}
use cornerstone.Codec.Snapshot.{SnapshotSyncCtx}
use cornerstone.Raft.Append.{
  skip_round, write_round, append_entry, append_client_entry, hear_leader, prev_okay, skip_overlap,
  undo_typed, undo_entry, write_over, announce_typed, announce_entry, append_new, store_entries,
  handle_append_entries, append_client, handle_cli_req,
}
use cornerstone.Raft.Responses.{
  wants_more, catch_up, handle_append_entries_resp, snapshot_progress, handle_install_snapshot_resp,
  handle_hb_timeout,
}
use cornerstone.Raft.State.Sending.{
  restart_election_timer-Keeps, become_follower-Keeps, term_for_log-Keeps,
  request_append_entries_to-Keeps, commit-Keeps, request_append_entries-Keeps,
}
use cornerstone.Raft.State.Keeps.{Keeps, Keeps-then, keeps_rules}

pub hear_leader-Keeps : Keeps (hear_leader)
unfolding hear_leader
hear_leader-Keeps =
    search (keeps_rules, refl, become_follower-Keeps, restart_election_timer-Keeps) depth 30

pub prev_okay-Keeps : (req : ReqMsg) → Keeps (prev_okay req)
unfolding prev_okay
prev_okay-Keeps req = search (keeps_rules, refl, term_for_log-Keeps) depth 30

pub skip_round-Keeps :
    (idx : ℕ) (e : LogEntry) (es : List LogEntry) (next : M (ℕ × List LogEntry))
    → Keeps next
    → Keeps (skip_round idx e es next)
unfolding skip_round
skip_round-Keeps idx e es next h = search (keeps_rules, refl) depth 30

pub skip_overlap-Keeps : (idx : ℕ) (es : List LogEntry) → Keeps (skip_overlap idx es)
unfolding skip_overlap
skip_overlap-Keeps idx [] = search (keeps_rules, refl) depth 30
skip_overlap-Keeps idx (e ∷ es) =
    skip_round-Keeps idx e es (skip_overlap (add64 idx 1) es) (skip_overlap-Keeps (add64 idx 1) es)

pub undo_typed-Keeps : (idx : ℕ) (buf : List ℕ) (t : LogValType) → Keeps (undo_typed idx buf t)
unfolding undo_typed
undo_typed-Keeps idx buf app_log = search (keeps_rules, refl) depth 30
undo_typed-Keeps idx buf conf = search (keeps_rules, refl) depth 30
undo_typed-Keeps idx buf _ = search (keeps_rules, refl) depth 30

pub undo_entry-Keeps : (idx : ℕ) (e : LogEntry) → Keeps (undo_entry idx e)
unfolding undo_entry
undo_entry-Keeps idx e = search (keeps_rules, refl, undo_typed-Keeps) depth 30

pub write_round-Keeps :
    (idx : ℕ) (e : LogEntry) (es : List LogEntry) (next : M (List LogEntry))
    → Keeps next
    → Keeps (write_round idx e es next)
unfolding write_round
write_round-Keeps idx e es next h = search (keeps_rules, refl, undo_entry-Keeps) depth 30

pub write_over-Keeps : (idx : ℕ) (es : List LogEntry) → Keeps (write_over idx es)
unfolding write_over
write_over-Keeps idx [] = search (keeps_rules, refl) depth 30
write_over-Keeps idx (e ∷ es) =
    write_round-Keeps idx e es (write_over (add64 idx 1) es) (write_over-Keeps (add64 idx 1) es)

pub announce_typed-Keeps :
    (idx : ℕ) (buf : List ℕ) (t : LogValType) → Keeps (announce_typed idx buf t)
unfolding announce_typed
announce_typed-Keeps idx buf conf = search (keeps_rules, refl) depth 30
announce_typed-Keeps idx buf _ = search (keeps_rules, refl) depth 30

pub announce_entry-Keeps : (idx : ℕ) (e : LogEntry) → Keeps (announce_entry idx e)
unfolding announce_entry
announce_entry-Keeps idx e = search (keeps_rules, refl, announce_typed-Keeps) depth 30

pub append_entry-Keeps : (e : LogEntry) → Keeps (append_entry e)
unfolding append_entry
append_entry-Keeps e = search (keeps_rules, refl, announce_entry-Keeps) depth 30

pub append_new-Keeps : (es : List LogEntry) → Keeps (append_new es)
unfolding append_new
append_new-Keeps [] = search (keeps_rules, refl) depth 30
append_new-Keeps (e ∷ es) =
    Keeps-then (append_entry e) (append_new es) (append_entry-Keeps e) (append_new-Keeps es)

pub store_entries-Keeps : (idx : ℕ) (es : List LogEntry) → Keeps (store_entries idx es)
unfolding store_entries
store_entries-Keeps idx es =
    search (keeps_rules, refl, append_new-Keeps, write_over-Keeps, skip_overlap-Keeps) depth 30

pub handle_append_entries-Keeps : (req : ReqMsg) → Keeps (handle_append_entries req)
unfolding handle_append_entries
handle_append_entries-Keeps req =
    search
      (keeps_rules, refl, hear_leader-Keeps, prev_okay-Keeps, store_entries-Keeps, commit-Keeps)
      depth 30

pub append_client_entry-Keeps : (e : LogEntry) → Keeps (append_client_entry e)
unfolding append_client_entry
append_client_entry-Keeps e = search (keeps_rules, refl) depth 30

pub append_client-Keeps : (es : List LogEntry) → Keeps (append_client es)
unfolding append_client
append_client-Keeps [] = search (keeps_rules, refl) depth 30
append_client-Keeps (e ∷ es) =
    Keeps-then (append_client_entry e) (append_client es) (append_client_entry-Keeps e)
      (append_client-Keeps es)

pub handle_cli_req-Keeps : (req : ReqMsg) → Keeps (handle_cli_req req)
unfolding handle_cli_req
handle_cli_req-Keeps req =
    search (keeps_rules, refl, append_client-Keeps, request_append_entries-Keeps) depth 30

pub wants_more-Keeps : (r : PeerRef) (idx : ℕ) → Keeps (wants_more r idx)
unfolding wants_more
wants_more-Keeps r idx = search (keeps_rules, refl) depth 30

pub catch_up-Keeps : (r : PeerRef) (need : Bool) → Keeps (catch_up r need)
unfolding catch_up
catch_up-Keeps r need = search (keeps_rules, refl, request_append_entries_to-Keeps) depth 30

pub handle_append_entries_resp-Keeps : (resp : RespMsg) → Keeps (handle_append_entries_resp resp)
unfolding handle_append_entries_resp
handle_append_entries_resp-Keeps resp =
    search (keeps_rules, refl, commit-Keeps, wants_more-Keeps, catch_up-Keeps) depth 30

pub snapshot_progress-Keeps :
    (r : PeerRef) (idx : ℕ) (ctx : SnapshotSyncCtx) → Keeps (snapshot_progress r idx ctx)
unfolding snapshot_progress
snapshot_progress-Keeps r idx ctx = search (keeps_rules, refl, wants_more-Keeps) depth 30

pub handle_install_snapshot_resp-Keeps :
    (resp : RespMsg) → Keeps (handle_install_snapshot_resp resp)
unfolding handle_install_snapshot_resp
handle_install_snapshot_resp-Keeps resp =
    search (keeps_rules, refl, snapshot_progress-Keeps, catch_up-Keeps) depth 30

pub handle_hb_timeout-Keeps : (id : ℕ) → Keeps (handle_hb_timeout id)
unfolding handle_hb_timeout
handle_hb_timeout-Keeps id = search (keeps_rules, refl, request_append_entries_to-Keeps) depth 30
