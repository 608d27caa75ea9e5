-- ===== src/Raft/StaleVotes.antt =====
-- raft_server.cxx: votes that were given for an earlier election.
use cornerstone.Common.{
  ◌+◌, ◌<◌, ℕ, ◌≡◌, refl, ap, arith, Bool, Bool-cases, true, false, ◌∷◌, inl, inr, ◌==◌,
  le→ltb_false, some, none,
}
use cornerstone.Raft.Types.{SrvRole, RespMsg, request_vote_response}
use cornerstone.Raft.Peers.{Peer, peer_ids}
use cornerstone.Raft.Server.{
  Server, M, PeerRef, member, joining, set_peer, is_leader, when, modify, gets, for_each, ◌>>=◌,
  ◌>>◌, done, cancel_election,
}
use cornerstone.Raft.Timers.{update_term, stop_election_timer, enable_hb_for_peer}
use cornerstone.Raft.Election.{
  become_leader, lead_peer, save_initial_config, handle_voting_resp, is_majority,
}
use cornerstone.Raft.Replication.{request_append_entries}
use cornerstone.Raft.Dispatch.{dispatch_resp, handle_peer_resp}
use cornerstone.Raft.Run.{final}
use cornerstone.Raft.Kept.{Kept, kept_rules}
use cornerstone.Raft.LogKept.{request_append_entries-LogKept}

abbrev role : Server → SrvRole
role s = s.role

set_peer-role : (r : PeerRef) (f : Peer → Peer) (s : Server) → role (set_peer r f s) ≡ role s
unfolding set_peer
set_peer-role (member id) f s = refl
set_peer-role joining f s = refl

enable_hb_for_peer-Kept : (r : PeerRef) (id : ℕ) → Kept role (enable_hb_for_peer r id)
unfolding enable_hb_for_peer
enable_hb_for_peer-Kept r id = search (kept_rules, refl, set_peer-role) depth 30

lead_peer-Kept : (id : ℕ) → Kept role (lead_peer id)
unfolding lead_peer
lead_peer-Kept id = search (kept_rules, refl, set_peer-role, enable_hb_for_peer-Kept) depth 30

save_initial_config-Kept : Kept role save_initial_config
unfolding save_initial_config
save_initial_config-Kept = search (kept_rules, refl, set_peer-role) depth 30

request_append_entries-Kept : Kept role request_append_entries
request_append_entries-Kept = record {
  at = λ s. ap (λ p. p.1) (request_append_entries-LogKept.at s);
}

-- What `become_leader` does when the role is set.
abbrev lead : M (Unit {0})
lead = do
  ids ← gets (λ s. peer_ids s.peers)
  for_each ids lead_peer
  idx ← gets (λ s. s.config.log_idx)
  when (idx == 0) save_initial_config
  request_append_entries

lead-Kept : Kept role lead
lead-Kept =
    search (kept_rules, refl, lead_peer-Kept, save_initial_config-Kept, request_append_entries-Kept)
      depth 30

abbrev leading : Server → Server
leading s = record s { role = SrvRole.leader; leader_id = s.id; srv_to_join = none }

become_leader-role : (s : Server) → role (final (become_leader s)) ≡ SrvRole.leader
unfolding become_leader stop_election_timer
become_leader-role s = elim (Bool-cases s.election_task) [
  | inl y ↦ rw y (
      lead-Kept.at (leading (record s { election_task = true; trace = cancel_election ∷ s.trace })))
  | inr y ↦ rw y (lead-Kept.at (leading (record s { election_task = false })))
]

-- The tail of the handler, where the votes are enough.
enough_votes :
    (b : Bool) (t : Server)
    → is_majority t.votes_granted t ≡ true
    → role (
        final (
          (when b (modify (λ u. record u { election_completed = true }))
              >> when
                  (is_majority t.votes_granted t)
                  (do modify (λ u. record u { election_completed = true }); become_leader))
            t))
      ≡ SrvRole.leader
enough_votes true t m = rw m (become_leader-role (record t { election_completed = true }))
enough_votes false t m = rw m (become_leader-role (record t { election_completed = true }))

update_term-old : (s : Server) (term : ℕ) → term < s.state.term → update_term term s ≡ done false s
unfolding update_term
update_term-old s term h = rw (le→ltb_false s.state.term term (omega (arith, h))) refl

-- An answer of an earlier term, which grants a vote that was asked for then, makes a server the leader of
-- the present term, whatever its role is, where with it the granted votes are more than half of the servers
-- and no election is completed: neither the term of the answer nor the role is tested.
pub handle_peer_resp-stale_vote :
    (s : Server) (resp : RespMsg)
    → resp.type ≡ request_vote_response
    → resp.term < s.state.term
    → resp.accepted ≡ true
    → s.election_completed ≡ false
    → is_majority (s.votes_granted + 1) s ≡ true
    → (is_leader (final (handle_peer_resp (some resp) s)).role ≡ true)
unfolding handle_peer_resp dispatch_resp handle_voting_resp is_majority
handle_peer_resp-stale_vote s resp t old a e m =
    rw (update_term-old s resp.term old, t, e, a)
      (ap is_leader (
        enough_votes _
          (record s {
            votes_responded = s.votes_responded + 1;
            election_completed = false;
            votes_granted = s.votes_granted + 1;
          })
          m))
