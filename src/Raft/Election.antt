-- ===== src/Raft/Election.antt =====
-- raft_server.cxx: elections.
use cornerstone.Common.{
  ℕ, ◌+◌, ◌-◌, ◌/◌, List, [], ◌∷◌, length, Bool, true, false, not, ◌&&◌, ◌||◌, none, ltb, leb, ◌==◌,
  if◌then◌else◌, sub64, minus_one,
}
use cornerstone.Codec.Entry.{conf}
use cornerstone.Codec.Srv.{SrvConfig}
use cornerstone.Codec.Config
use cornerstone.Codec.Config.{ClusterConfig, set_log_idx}
use cornerstone.Log
use cornerstone.Raft.Types.{
  SrvRole, MsgType, ReqMsg, RespMsg, resp_msg, accept, inc_term, set_voted_for,
}
use cornerstone.Raft.Peers.{peer_ids, set_next_log_idx, set_snapshot_in_sync, set_free}
use cornerstone.Raft.Server.{
  Server, M, ◌>>=◌, ◌>>◌, on_some, pure, gets, modify, emit, when, for_each, halt, lift, send,
  save_state, save_config, peer_handler, member, modify_peer, is_leader,
}
use cornerstone.Raft.Timers.{restart_election_timer, stop_election_timer, enable_hb_for_peer}
use cornerstone.Raft.Replication.{term_for_log, request_append_entries}

-- The test for a vote: the candidate's last entry is as new as the one of this log.
unfoldable pub log_okay : Log.Log → ReqMsg → Bool
log_okay log req =
    let last_term = (Log.last_entry log).term in
    ltb last_term req.last_log_term
    || (req.last_log_term == last_term && leb (sub64 (Log.next_slot log) 1) req.last_log_idx)

unfoldable pub grants : Server → ReqMsg → Bool
grants s req =
    req.term == s.state.term
    && (log_okay s.log req && (s.state.voted_for == req.src || s.state.voted_for == minus_one))

unfoldable pub handle_vote_req : ReqMsg → M RespMsg
handle_vote_req req = do
  s ← gets (λ s. s)
  let resp = resp_msg s.state.term MsgType.request_vote_response s.id req.src 0
  if grants s req
      then (do
        modify (λ t. record t { state = set_voted_for t.state req.src })
        st ← gets (λ t. t.state)
        emit (save_state st)
        pure (accept resp (Log.next_slot s.log)))
      else pure resp

-- One round of the loop in `become_leader`.
unfoldable pub lead_peer : ℕ → M (Unit {0})
lead_peer id = do
  next ← gets (λ s. Log.next_slot s.log)
  modify_peer (member id) (set_next_log_idx next)
  modify_peer (member id) (set_snapshot_in_sync none)
  modify_peer (member id) set_free
  enable_hb_for_peer (member id) id

-- The first leader of all puts the initial configuration into the log.
unfoldable pub save_initial_config : M (Unit {0})
save_initial_config = do
  modify (λ s. record s { config = set_log_idx s.config (Log.next_slot s.log) })
  s ← gets (λ s. s)
  conf_buf ← lift (Config.serialize s.config)
  modify (λ s. record s {
    log = Log.append s.log (record { term = s.state.term; val_type = conf; buf = conf_buf.bytes });
    config_changing = true;
  })

unfoldable pub become_leader : M (Unit {0})
become_leader = do
  stop_election_timer
  modify (λ s. record s { role = SrvRole.leader; leader_id = s.id; srv_to_join = none })
  ids ← gets (λ s. peer_ids s.peers)
  for_each ids lead_peer
  idx ← gets (λ s. s.config.log_idx)
  when (idx == 0) save_initial_config
  request_append_entries

unfoldable pub send_vote_req : ℕ → M (Unit {0})
send_vote_req id = do
  s ← gets (λ s. s)
  last_term ← term_for_log (sub64 (Log.next_slot s.log) 1)
  emit (
      send id peer_handler (record {
        term = s.state.term;
        type = MsgType.request_vote_request;
        src = s.id;
        dst = id;
        last_log_term = last_term;
        last_log_idx = sub64 (Log.next_slot s.log) 1;
        commit_idx = s.state.commit_idx;
        log_entries = [];
      }))

-- `votes > (peers + 1) / 2`
unfoldable pub is_majority : ℕ → Server → Bool
is_majority votes s = ltb ((length s.peers + 1) / 2) votes

-- The first part of `request_vote`: the vote for itself is saved.
unfoldable pub vote_for_self : M (Unit {0})
vote_for_self = do
  modify (λ s. record s { state = set_voted_for s.state s.id })
  st ← gets (λ s. s.state)
  emit (save_state st)

-- The second part: the own vote is counted, and the peers are asked.
unfoldable pub ask_peers : M (Unit {0})
ask_peers = do
  modify (λ s. record s {
    votes_granted = s.votes_granted + 1;
    votes_responded = s.votes_responded + 1;
  })
  s ← gets (λ s. s)
  if is_majority s.votes_granted s
      then (do modify (λ t. record t { election_completed = true }); become_leader)
      else for_each (peer_ids s.peers) send_vote_req

unfoldable pub request_vote : M (Unit {0})
request_vote = vote_for_self >> ask_peers

-- The first server of that id is erased.
unfoldable pub erase_server : ℕ → List SrvConfig → List SrvConfig
erase_server id [] = []
erase_server id (c ∷ cs) = if c.id == id then cs else c ∷ erase_server id cs

unfoldable pub without_server : ℕ → ClusterConfig → ClusterConfig
without_server id c = record c { servers = erase_server id c.servers }

-- The server leaves the cluster by itself: nobody told it the outcome of its removal.
unfoldable pub step_down : M (Unit {0})
step_down = do
  s ← gets (λ s. s)
  on_some (Config.get_server s.config s.id) (pure tt) (λ c. (do
    modify (λ t. record t { config = without_server t.id t.config })
    config ← gets (λ t. t.config)
    emit (save_config config)))
  halt minus_one 0

-- A candidate has a new term and no vote.
unfoldable pub become_candidate : M (Unit {0})
become_candidate = do
  modify (λ s. record s {
    state = set_voted_for (inc_term s.state) minus_one;
    role = SrvRole.candidate;
    votes_granted = 0;
    votes_responded = 0;
    election_completed = false;
  })
  st ← gets (λ s. s.state)
  emit (save_state st)

-- The timer of a server that does not lead is restarted.
unfoldable pub wait_for_votes : M (Unit {0})
wait_for_votes = do role ← gets (λ s. s.role); when (not (is_leader role)) restart_election_timer

unfoldable pub start_election : M (Unit {0})
start_election = become_candidate >> request_vote >> wait_for_votes

-- A server that was told to leave counts down.
unfoldable pub count_down : M (Unit {0})
count_down = do
  modify (λ t. record t { steps_to_down = t.steps_to_down - 1 })
  left ← gets (λ t. t.steps_to_down)
  if left == 0 then step_down else restart_election_timer

unfoldable pub handle_election_timeout : M (Unit {0})
handle_election_timeout = do
  s ← gets (λ s. s)
  if ltb 0 s.steps_to_down
      then count_down
      else if s.catching_up
      then restart_election_timer
      else if is_leader s.role
      then halt minus_one minus_one
      else start_election

unfoldable pub handle_voting_resp : RespMsg → M (Unit {0})
handle_voting_resp resp = do
  modify (λ s. record s { votes_responded = s.votes_responded + 1 })
  completed ← gets (λ s. s.election_completed)
  if completed then pure tt else do
    when resp.accepted (modify (λ s. record s { votes_granted = s.votes_granted + 1 }))
    s ← gets (λ s. s)
    when (leb (length s.peers + 1) s.votes_responded)
        (modify (λ t. record t { election_completed = true }))
    when (is_majority s.votes_granted s)
        (do modify (λ t. record t { election_completed = true }); become_leader)
