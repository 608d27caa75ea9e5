-- ===== src/Raft/Timers.antt =====
-- raft_server.cxx: the election timer, stepping down to follower, and a newer term.
use cornerstone.Common.{ℕ, Bool, true, false, ltb, if◌then◌else◌, minus_one, none}
use cornerstone.Raft.Types.{SrvRole, set_term, set_voted_for}
use cornerstone.Raft.Peers.{peer_ids, set_hb_enabled, resume_hb_speed}
use cornerstone.Raft.Server.{
  Server, M, ◌>>=◌, ◌>>◌, pure, gets, modify, emit, when, for_each, save_state, schedule_election,
  cancel_election, schedule_hb, cancel_hb, PeerRef, member, get_peer, modify_peer, deref,
}

-- The task is made at the first call; later ones cancel it first.
unfoldable pub restart_election_timer : M (Unit {0})
restart_election_timer = do
  catching_up ← gets (λ s. s.catching_up)
  if catching_up then pure tt else do
    task ← gets (λ s. s.election_task)
    if task then emit cancel_election else modify (λ s. record s { election_task = true })
    timeout ← gets (λ s. s.host.rand_timeout)
    emit (schedule_election timeout)

unfoldable pub stop_election_timer : M (Unit {0})
stop_election_timer = do task ← gets (λ s. s.election_task); when task (emit cancel_election)

-- `enable_hb(false)`
unfoldable pub disable_hb : ℕ → M (Unit {0})
disable_hb id = do modify_peer (member id) (set_hb_enabled false); emit (cancel_hb id)

unfoldable pub enable_hb_for_peer : PeerRef → ℕ → M (Unit {0})
enable_hb_for_peer r id = do
  modify_peer r (set_hb_enabled true)
  modify_peer r resume_hb_speed
  p ← gets (get_peer r)
  q ← deref p
  emit (schedule_hb id q.current_hb_interval)

unfoldable pub become_follower : M (Unit {0})
become_follower = do
  ids ← gets (λ s. peer_ids s.peers)
  for_each ids disable_hb
  modify (λ s. record s { srv_to_join = none; role = SrvRole.follower })
  restart_election_timer

-- A newer term is taken over, without a vote.
unfoldable pub new_term : ℕ → Server → Server
new_term term s = record s {
  state = set_voted_for (set_term s.state term) minus_one;
  election_completed = false;
  votes_granted = 0;
  votes_responded = 0;
}

unfoldable pub save_and_follow : M (Unit {0})
save_and_follow = do newer ← gets (λ s. s.state); emit (save_state newer); become_follower

-- Whether the term is new to this server.
unfoldable pub update_term : ℕ → M Bool
update_term term = do
  st ← gets (λ s. s.state)
  if ltb st.term term then (do modify (new_term term); save_and_follow; pure true) else pure false
