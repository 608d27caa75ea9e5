-- ===== src/Raft/Heartbeats.antt =====
-- raft_server.cxx and delayed_task.hxx: the heartbeat tasks of the peers, from the calls that the server
-- makes to the scheduler.
use cornerstone.Common.{
  ℕ, ◌<◌, ◌≡◌, refl, List, [], ◌∷◌, ◌++◌, length, All, Bool, true, false, if◌then◌else◌, ◌==◌,
  arith, ◌⊎◌, inl, inr, lt→ltb, eq→==, ==_refl, ◌≤◌, ap,
}
use cornerstone.Task
use cornerstone.Task.{Task, Event}
use cornerstone.Task.Runs.{IsQuiet, schedule-Silent}
use cornerstone.Raft.Peers.{peer_ids}
use cornerstone.Raft.Server.{
  Server, Effect, cancel_hb, schedule_hb, set_peer, for_each, done, Outcome, exited, thrown,
  continue, pure,
}
use cornerstone.Raft.Timers.{
  disable_hb, become_follower, restart_election_timer, save_and_follow, update_term, new_term,
}
use cornerstone.Raft.Run.{final}

-- The heartbeat task of the peer `id`, made with the peer, after the calls in a trace, the latest first.
-- A peer that is dropped and added again has a new task in the code, which is not followed here.
unfoldable pub hb_task : ℕ → List Effect → Task ℕ
hb_task id [] = Task.new true id
hb_task id (cancel_hb j ∷ tr) = let t = hb_task id tr in if j == id then Task.cancel_task t else t
hb_task id (schedule_hb j ms ∷ tr) =
    let t = hb_task id tr in if j == id then Task.schedule ms t else t
hb_task id (_ ∷ tr) = hb_task id tr

-- The calls that do not schedule the heartbeat of `id`.
abbrev pub IsOther : ℕ → Effect → Type 0
IsOther id (schedule_hb j ms) = (j == id) ≡ false
IsOther id _ = Unit

abbrev pub Has : ℕ → List ℕ → Type 0
Has id [] = ⊥
Has id (x ∷ xs) = (x ≡ id) ⊎ Has id xs

-- The task was cancelled, and never scheduled.
abbrev IsDead : ℕ → List Effect → Type 0
IsDead id tr = ((hb_task id tr).cancelled ≡ true) × ((hb_task id tr).has_impl_ctx ≡ false)

-- No worker is part of a trace.
hb_task-idle :
    (id : ℕ) (tr : List Effect) → ((hb_task id tr).calls ≡ []) × ((hb_task id tr).entered ≡ 0)
unfolding hb_task Task.new Task.cancel_task Task.schedule
hb_task-idle id [] = (refl, refl)
hb_task-idle id (cancel_hb j ∷ tr) = ground (arith, hb_task-idle id tr)
hb_task-idle id (schedule_hb j ms ∷ tr) = ground (arith, hb_task-idle id tr)
hb_task-idle id (_ ∷ tr) = hb_task-idle id tr

other-IsDead :
    (id : ℕ) (e : Effect) (tr : List Effect) → IsOther id e → IsDead id tr → IsDead id (e ∷ tr)
unfolding hb_task Task.cancel_task
other-IsDead id (cancel_hb j) tr o h = ground arith
other-IsDead id (schedule_hb j ms) tr o h = rw o h
other-IsDead id _ tr o h = h

others-IsDead :
    (id : ℕ) (es : List Effect) (tr : List Effect)
    → All (IsOther id) es
    → IsDead id tr
    → IsDead id (es ++ tr)
others-IsDead id [] tr o h = h
others-IsDead id (e ∷ es) tr o h = other-IsDead id e (es ++ tr) o.0 (others-IsDead id es tr o.1 h)

-- The state that the loop over the peers leaves.
disable_all-IsDead :
    (id : ℕ) (ids : List ℕ) (s : Server)
    → IsDead id s.trace
    → IsDead id (final (for_each ids disable_hb s)).trace
unfolding disable_hb set_peer
disable_all-IsDead id [] s h = h
disable_all-IsDead id (j ∷ ids) s h =
    disable_all-IsDead id ids _ (other-IsDead id (cancel_hb j) s.trace tt h)

cancel_own-IsDead :
    (id j : ℕ) (tr : List Effect)
    → j ≡ id
    → (hb_task id tr).has_impl_ctx ≡ false
    → IsDead id (cancel_hb j ∷ tr)
unfolding hb_task Task.cancel_task
cancel_own-IsDead id j tr e u = rw (eq→== j id e) (ground arith)

cancel-unscheduled :
    (id j : ℕ) (tr : List Effect)
    → (hb_task id tr).has_impl_ctx ≡ false
    → (hb_task id (cancel_hb j ∷ tr)).has_impl_ctx ≡ false
unfolding hb_task Task.cancel_task
cancel-unscheduled id j tr u = ground arith

-- The loop cancels the task of each peer.
disable_all-IsDead_of_Has :
    (id : ℕ) (ids : List ℕ) (s : Server)
    → (hb_task id s.trace).has_impl_ctx ≡ false
    → Has id ids
    → IsDead id (final (for_each ids disable_hb s)).trace
unfolding disable_hb set_peer
disable_all-IsDead_of_Has id [] s u h = absurd h
disable_all-IsDead_of_Has id (j ∷ ids) s u (inl e) =
    disable_all-IsDead id ids _ (cancel_own-IsDead id j s.trace e u)
disable_all-IsDead_of_Has id (j ∷ ids) s u (inr h) =
    disable_all-IsDead_of_Has id ids _ (cancel-unscheduled id j s.trace u) h

-- The loop ends as it should.
disable_all-done :
    (ids : List ℕ) (s : Server)
    → for_each ids disable_hb s ≡ done tt (final (for_each ids disable_hb s))
unfolding disable_hb
disable_all-done [] s = refl
disable_all-done (j ∷ ids) s = disable_all-done ids _

restart_election_timer-IsDead :
    (id : ℕ) (s : Server) → IsDead id s.trace → IsDead id (final (restart_election_timer s)).trace
unfolding restart_election_timer hb_task
restart_election_timer-IsDead id s h = ground arith

become_follower-IsDead :
    (id : ℕ) (s : Server)
    → (hb_task id s.trace).has_impl_ctx ≡ false
    → Has id (peer_ids s.peers)
    → IsDead id (final (become_follower s)).trace
unfolding become_follower
become_follower-IsDead id s u h =
    rw (disable_all-done (peer_ids s.peers) s)
      (restart_election_timer-IsDead id _ (disable_all-IsDead_of_Has id (peer_ids s.peers) s u h))

empty_of_none : (xs : List ℕ) → length xs ≤ 0 → xs ≡ []
empty_of_none [] h = refl
empty_of_none (x ∷ xs) h = absurd (omega arith)

-- A value at the end leaves the state.
final-pure : (o : Outcome (Unit {0})) (b : Bool) → final (continue o (λ _. pure b)) ≡ final o
final-pure (done a s) b = refl
final-pure (exited c s) b = refl
final-pure (thrown e s) b = refl

update_term-IsDead :
    (id term : ℕ) (s : Server)
    → s.state.term < term
    → (hb_task id s.trace).has_impl_ctx ≡ false
    → Has id (peer_ids s.peers)
    → IsDead id (final (update_term term s)).trace
unfolding update_term save_and_follow hb_task new_term
update_term-IsDead id term s n u h =
    rw (lt→ltb s.state.term term n, final-pure (save_and_follow (new_term term s)) true)
      (become_follower-IsDead id _ u h)

-- A server that has not yet sent heartbeats and takes over a newer term cancels the heartbeat of each
-- peer. When it then leads, and schedules that heartbeat for the first time, the task stays cancelled:
-- the leader sends the peer no heartbeat, until another call schedules it.
pub update_term-Silent :
    (id term ms : ℕ) (s : Server) (between : List Effect) (es : List Event)
    → s.state.term < term
    → (hb_task id s.trace).has_impl_ctx ≡ false
    → Has id (peer_ids s.peers)
    → All (IsOther id) between
    → All IsQuiet es
    → (Task.run es
        (hb_task id (schedule_hb id ms ∷ between ++ (final (update_term term s)).trace))).calls
      ≡ []
unfolding hb_task
update_term-Silent id term ms s between es n u h o q =
    let dead = others-IsDead id between _ o (update_term-IsDead id term s n u h) in
    let tr : List Effect = between ++ (final (update_term term s)).trace in
    rw (==_refl id) (
      empty_of_none _ (
        omega (
          arith,
          schedule-Silent (hb_task id tr) ms es dead.1 dead.0 q,
          ap length (hb_task-idle id tr).0,
          (hb_task-idle id tr).1,
        )))
