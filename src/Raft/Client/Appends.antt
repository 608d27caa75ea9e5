-- ===== src/Raft/Client/Appends.antt =====
-- raft_server.cxx: what `append_entries` of a leader does to its log.
use cornerstone.Common.{
  ℕ, ◌≡◌, refl, sym, ◌∙◌, ap, List, [], ◌∷◌, ◌++◌, map, Bool, true, false, ◌==◌, minus_one,
  append_assoc, append-nil, eq→==,
}
use cornerstone.Codec.Entry.{LogEntry, app_log}
use cornerstone.Log
use cornerstone.Raft.Types.{MsgType, RespMsg, accept, resp_msg}
use cornerstone.Raft.Server.{
  Server, Outcome, done, exited, thrown, ◌>>=◌, pure, gets, continue, is_leader,
}
use cornerstone.Raft.Run.{final}
use cornerstone.Raft.Loops.{Returns, log_of}
use cornerstone.Raft.Append.{append_client_entry, append_client, handle_cli_req}
use cornerstone.Raft.Replication.{request_append_entries}
use cornerstone.Raft.Dispatch.{process_req, note_term, dispatch_req}
use cornerstone.Raft.LogKept.{request_append_entries-LogKept}
use cornerstone.Raft.Client.{
  Submitted, known, client_entry, client_req, append_entries, send_msg_to_leader,
}

append_client-Returns :
    (es : List LogEntry) (start : ℕ) (pre : List LogEntry) (s : Server)
    → s.log ≡ log_of start pre
    → Returns (append_client es s) (λ _ u. u.log ≡ log_of start (pre ++ es))
unfolding append_client append_client_entry Log.append
append_client-Returns [] start pre s h = record {
  result = tt;
  after = s;
  ends = refl;
  holds = h ∙ ap (log_of start) (sym (append-nil pre));
}
append_client-Returns (e ∷ es) start pre s h =
    rw (← append_assoc pre (e ∷ []) es)
      (append_client-Returns es start (pre ++ (e ∷ [])) _ (ap (λ l. Log.append l e) h))

-- The end of `handle_cli_req`, and of `send_msg_to_leader`.
abbrev answer : RespMsg → Outcome (Unit {0}) → Outcome Submitted
answer resp o =
    continue (continue o (λ _. do next ← gets (λ t. Log.next_slot t.log); pure (accept resp next)))
      (λ r. pure (known r.accepted))

answer-log :
    (resp : RespMsg) (o : Outcome (Unit {0})) (l : Log.Log)
    → (final o).log ≡ l
    → ((final (answer resp o)).log ≡ l)
      × ((r : Submitted) (u : Server) → answer resp o ≡ done r u → r ≡ known true)
unfolding accept
answer-log resp (done a s) l h = (h, λ r u e. cc)
answer-log resp (exited c s) l h = (h, λ r u e. cc)
answer-log resp (thrown x s) l h = (h, λ r u e. cc)

-- A leader that is given entries by its application appends them to its log, in order, but with the term
-- 0 in place of its own; and where the call returns, its result is true.
pub append_entries-zero_terms :
    (create_client : List ℕ → Bool) (s : Server) (buf : List ℕ) (bufs : List (List ℕ))
    → (s.leader_id == minus_one) ≡ false
    → s.leader_id ≡ s.id
    → is_leader s.role ≡ true
    → ((final (append_entries create_client (buf ∷ bufs) s)).log
        ≡ log_of s.log.start (
            s.log.entries
            ++ map (λ b. record { term = 0; val_type = app_log; buf = b }) (buf ∷ bufs)))
      × ((r : Submitted) (u : Server)
          → append_entries create_client (buf ∷ bufs) s ≡ done r u
          → r ≡ known true)
unfolding append_entries send_msg_to_leader process_req note_term dispatch_req handle_cli_req
    client_req client_entry
append_entries-zero_terms create_client s buf bufs n i l =
    let a =
      append_client-Returns (map (client_entry app_log) (buf ∷ bufs)) s.log.start s.log.entries s
        refl in
    rw (n, eq→== s.leader_id s.id i, l, a.ends)
      (answer-log (resp_msg s.state.term MsgType.append_entries_response s.id s.leader_id 0)
        (request_append_entries a.after)
        (log_of s.log.start (s.log.entries ++ map (client_entry app_log) (buf ∷ bufs)))
        (ap (λ p. p.0) (request_append_entries-LogKept.at a.after) ∙ a.holds))
