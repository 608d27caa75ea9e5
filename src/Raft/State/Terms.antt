-- ===== src/Raft/State/Terms.antt =====
-- raft_server.cxx: terms and votes.
use cornerstone.Common.{
  ℕ, if◌then◌else◌, ◌+◌, ◌<◌, ◌^◌, ◌==◌, ◌||◌, minus_one, arith, inl, inr, ltb, ltb→lt, Bool-cases,
  ◌≡◌, refl, Bool, true, false,
}
use cornerstone.Raft.Server.{Server, M, halt, is_leader, pure, ◌>>◌}
use cornerstone.Raft.Types.{SrvState, set_voted_for, set_term, inc_term, ReqMsg, RespMsg}
use cornerstone.Raft.Timers.{restart_election_timer, update_term, new_term, save_and_follow}
use cornerstone.Raft.Election.{
  wait_for_votes, count_down, lead_peer, save_initial_config, become_leader, send_vote_req,
  ask_peers, vote_for_self, become_candidate, request_vote, step_down, handle_voting_resp,
  handle_vote_req, grants, start_election, handle_election_timeout,
}
use cornerstone.Raft.State.Sending.{
  restart_election_timer-Keeps, stop_election_timer-Keeps, become_follower-Keeps,
  enable_hb_for_peer-Keeps, term_for_log-Keeps, request_append_entries-Keeps,
}
use cornerstone.Raft.Run.{final}
use cornerstone.Raft.State.Keeps.{
  Keeps-pure, Keeps, Keeps-then, Advances, Advances-refl, Advances-trans, keeps_rules,
}

pub lead_peer-Keeps : (id : ℕ) → Keeps (lead_peer id)
unfolding lead_peer
lead_peer-Keeps id = search (keeps_rules, refl, enable_hb_for_peer-Keeps) depth 30

pub save_initial_config-Keeps : Keeps (save_initial_config)
unfolding save_initial_config
save_initial_config-Keeps = search (keeps_rules, refl) depth 30

pub become_leader-Keeps : Keeps (become_leader)
unfolding become_leader
become_leader-Keeps =
    search
      (
        keeps_rules, refl, stop_election_timer-Keeps, lead_peer-Keeps, save_initial_config-Keeps,
        request_append_entries-Keeps,
      )
      depth 30

pub send_vote_req-Keeps : (id : ℕ) → Keeps (send_vote_req id)
unfolding send_vote_req
send_vote_req-Keeps id = search (keeps_rules, refl, term_for_log-Keeps) depth 30

pub ask_peers-Keeps : Keeps (ask_peers)
unfolding ask_peers
ask_peers-Keeps = search (keeps_rules, refl, become_leader-Keeps, send_vote_req-Keeps) depth 30

pub step_down-Keeps : Keeps (step_down)
unfolding step_down
step_down-Keeps = search (keeps_rules, refl) depth 30

pub handle_voting_resp-Keeps : (resp : RespMsg) → Keeps (handle_voting_resp resp)
unfolding handle_voting_resp
handle_voting_resp-Keeps resp = search (keeps_rules, refl, become_leader-Keeps) depth 30

save_and_follow-Keeps : Keeps save_and_follow
unfolding save_and_follow
save_and_follow-Keeps = search (keeps_rules, become_follower-Keeps) depth 30

newer_term :
    (term : ℕ) (st : SrvState)
    → st.term < term
    → Advances st (set_voted_for (set_term st term) minus_one)
unfolding set_voted_for set_term
newer_term term st h = record {
  term = omega (arith, h);
  commit_idx = omega arith;
  voted_for = λ e. omega (arith, e, h);
}

pub update_term-Keeps : (term : ℕ) → Keeps (update_term term)
unfolding update_term new_term
update_term-Keeps term = record {
  at = λ s. elim (Bool-cases (ltb s.state.term term)) [
    | inl h ↦ rw h (
        Advances-trans s.state (set_voted_for (set_term s.state term) minus_one) _
          (newer_term term s.state (ltb→lt s.state.term term h))
          ((Keeps-then save_and_follow (pure true) save_and_follow-Keeps (Keeps-pure true)).at
            (new_term term s)))
    | inr h ↦ rw h (Advances-refl s.state)
  ];
}

granted :
    (st : SrvState) (src : ℕ)
    → (st.voted_for == src || st.voted_for == minus_one) ≡ true
    → Advances st (set_voted_for st src)
unfolding set_voted_for
granted st src h = record {
  term = omega arith;
  commit_idx = omega arith;
  voted_for = λ e. ground arith;
}

pub handle_vote_req-Keeps : (req : ReqMsg) → Keeps (handle_vote_req req)
unfolding handle_vote_req grants
handle_vote_req-Keeps req = record {
  at = λ s. elim (Bool-cases (grants s req)) [
    | inl h ↦ rw h (granted s.state req.src (ground (arith, h)))
    | inr h ↦ rw h (Advances-refl s.state)
  ];
}

candidate_term :
    (st : SrvState)
    → st.term + 1 < 2 ^ 64
    → (id : ℕ) → Advances st (set_voted_for (set_voted_for (inc_term st) minus_one) id)
unfolding set_voted_for inc_term
candidate_term st h id = record {
  term = omega (arith, h);
  commit_idx = omega arith;
  voted_for = λ e. omega (arith, e, h);
}

wait_for_votes-Keeps : Keeps wait_for_votes
unfolding wait_for_votes
wait_for_votes-Keeps = search (keeps_rules, restart_election_timer-Keeps) depth 30

pub start_election-Advances :
    (s : Server) → s.state.term + 1 < 2 ^ 64 → Advances s.state (final (start_election s)).state
unfolding start_election request_vote become_candidate vote_for_self
start_election-Advances s h =
    Advances-trans s.state (set_voted_for (set_voted_for (inc_term s.state) minus_one) s.id) _
      (candidate_term s.state h s.id)
      ((Keeps-then ask_peers wait_for_votes ask_peers-Keeps wait_for_votes-Keeps).at
        (final ((become_candidate >> vote_for_self) s)))

count_down-Keeps : Keeps count_down
unfolding count_down
count_down-Keeps =
    search (keeps_rules, refl, step_down-Keeps, restart_election_timer-Keeps) depth 30

if-Advances :
    {A : Type 0} (b : Bool) (m n : M A) (s : Server)
    → Advances s.state (final (m s)).state
    → Advances s.state (final (n s)).state
    → Advances s.state (final ((if b then m else n) s)).state
if-Advances true m n s h k = h
if-Advances false m n s h k = k

pub handle_election_timeout-Advances :
    (s : Server)
    → s.state.term + 1 < 2 ^ 64
    → Advances s.state (final (handle_election_timeout s)).state
unfolding handle_election_timeout
handle_election_timeout-Advances s h =
    if-Advances (ltb 0 s.steps_to_down) count_down _ s (count_down-Keeps.at s) (
      if-Advances s.catching_up restart_election_timer _ s (restart_election_timer-Keeps.at s) (
        if-Advances (is_leader s.role) (halt minus_one minus_one) start_election s
          (Advances-refl s.state) (start_election-Advances s h)))
