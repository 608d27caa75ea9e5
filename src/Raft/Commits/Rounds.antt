-- ===== src/Raft/Commits/Rounds.antt =====
-- raft_server.cxx: the rounds of the committing loop, and what a run of the committing thread leaves.
use cornerstone.Common.{
  ℕ, zero, suc, ◌+◌, ◌-◌, ◌^◌, ◌≤◌, ◌<◌, ◌≡◌, refl, true, false, arith, add64, ap, inl, inr,
  Bool-cases, length, ◌⊎◌, ◌∙◌, subst,
}
use cornerstone.Log.{Log}
use cornerstone.Raft.Types.{set_commit_idx}
use cornerstone.Raft.Server.{
  Server, M, ◌>>=◌, ◌>>◌, modify, gets, emit, save_state, Outcome, done, exited, thrown, continue,
}
use cornerstone.Raft.Run.{final}
use cornerstone.Raft.Snapshots.{snapshot_and_compact, or_halt, halt_thrown}
use cornerstone.Log
use cornerstone.Raft.Committer.{commit_entry, commit_one, commit_loop, can_commit, commit_round}
use cornerstone.Raft.State.Commits.{snapshot_and_compact-Keeps}
use cornerstone.Raft.Commits.{pending, commit_entry-Kept}

-- Two ways to go on that agree on the servers with the same index and log.
continue-same :
    (r : Outcome (Unit {0})) (m n : M (Unit {0})) (q : ℕ × Log)
    → pending (final r) ≡ q
    → ((t : Server) → pending t ≡ q → m t ≡ n t)
    → continue r (λ _. m) ≡ continue r (λ _. n)
continue-same (done a t) m n q h k = k t h
continue-same (exited c t) m n q h k = refl
continue-same (thrown e t) m n q h k = refl

can_commit-lt :
    (s : Server) (current : ℕ) → can_commit s current ≡ true → current < s.quick_commit_idx
unfolding can_commit
can_commit-lt s current y = ground (arith, y)

commit_one-same :
    (current : ℕ) (m n : M (Unit {0})) (s : Server)
    → ((t : Server) → current < s.quick_commit_idx → pending t ≡ pending s → m t ≡ n t)
    → commit_one current m s ≡ commit_one current n s
unfolding commit_one
commit_one-same current m n s k = elim (Bool-cases (can_commit s current)) [
  | inl y ↦ rw y (
      continue-same (commit_entry (add64 current 1) s) m n (pending s)
        ((commit_entry-Kept (add64 current 1)).at s) (λ t h. k t (can_commit-lt s current y) h))
  | inr y ↦ rw y refl
]

commit_one-done :
    (current : ℕ) (m : M (Unit {0})) (s : Server)
    → s.quick_commit_idx ≤ current
    → commit_one current m s ≡ done tt s
unfolding commit_one
commit_one-done current m s h = elim (Bool-cases (can_commit s current)) [
  | inl y ↦ absurd (omega (arith, can_commit-lt s current y, h))
  | inr y ↦ rw y refl
]

commit_loop-more :
    (fuel rounds current : ℕ) (s : Server)
    → s.quick_commit_idx < 2 ^ 64
    → s.quick_commit_idx ≤ current + fuel
    → fuel ≤ rounds
    → commit_loop rounds current s ≡ commit_loop fuel current s
unfolding commit_loop
commit_loop-more zero zero current s w h r = refl
commit_loop-more zero (suc rounds) current s w h r =
    commit_one-done current (commit_loop rounds (add64 current 1)) s (omega (arith, h))
commit_loop-more (suc fuel) zero current s w h r = absurd (omega (arith, r))
commit_loop-more (suc fuel) (suc rounds) current s w h r =
    commit_one-same current (commit_loop rounds (add64 current 1))
      (commit_loop fuel (add64 current 1)) s
      (λ t l e.
        let q : t.quick_commit_idx ≡ s.quick_commit_idx = ap (λ p. p.0) e in
        let next : add64 current 1 ≡ suc current = omega (arith, l, w) in
        rw next (
          commit_loop-more fuel rounds (suc current) t (omega (arith, q, w)) (omega (arith, q, h))
            (omega (arith, r))))

-- What `commit_entry` does from the move of the index on.
unfoldable move_index : ℕ → M (Unit {0})
move_index idx =
    modify (λ s. record s { state = set_commit_idx s.state idx }) >> snapshot_and_compact idx

move_index-Reaches : (idx : ℕ) (s : Server) → idx ≤ (final (move_index idx s)).state.commit_idx
unfolding move_index set_commit_idx
move_index-Reaches idx s =
    let moved = record s { state = set_commit_idx s.state idx } in
    let h = (snapshot_and_compact-Keeps idx).at moved in ground (arith, h.commit_idx)

-- A method that, where it returns, leaves the commit index at `idx` at least.
record Reaches (idx : ℕ) (m : M (Unit {0})) : Type 0 where
  pub at : (s t : Server) → m s ≡ done tt t → idx ≤ t.state.commit_idx

continue-Reaches :
    {A : Type 0} (idx : ℕ) (r : Outcome A) (f : A → M (Unit {0})) (t : Server)
    → ((a : A) → Reaches idx (f a))
    → continue r f ≡ done tt t
    → idx ≤ t.state.commit_idx
continue-Reaches idx (done a s) f t h e = (h a).at s t e
continue-Reaches idx (exited c s) f t h e = absurd cc
continue-Reaches idx (thrown x s) f t h e = absurd cc

Reaches-bind :
    {A : Type 0} (idx : ℕ) (m : M A) (f : A → M (Unit {0}))
    → ((a : A) → Reaches idx (f a))
    → Reaches idx (m >>= f)
Reaches-bind idx m f h = record { at = λ s t e. continue-Reaches idx (m s) f t h e }

Reaches-then : (idx : ℕ) (m k : M (Unit {0})) → Reaches idx k → Reaches idx (m >> k)
Reaches-then idx m k h = record { at = λ s t e. continue-Reaches idx (m s) (λ _. k) t (λ _. h) e }

moved-Reaches : (idx : ℕ) → Reaches idx (move_index idx)
moved-Reaches idx = record {
  at = λ s t h. omega (arith, move_index-Reaches idx s, ap (λ o. (final o).state.commit_idx) h);
}

commit_entry-Reaches : (idx : ℕ) → Reaches idx (commit_entry idx)
unfolding commit_entry move_index
commit_entry-Reaches idx = search (moved-Reaches, Reaches-then, Reaches-bind) depth 30

-- Nothing is left to commit, and nothing else was asked for.
abbrev pub Finished : Server → Server → Type 0
Finished s t = (can_commit t t.state.commit_idx ≡ false) × (pending t ≡ pending s)

can_commit-later : (s : Server) (i j : ℕ) → i ≤ j → can_commit s i ≡ false → can_commit s j ≡ false
unfolding can_commit
can_commit-later s i j h y = ground (arith, h, y)

can_commit-none : (s : Server) (i : ℕ) → s.quick_commit_idx ≤ i → can_commit s i ≡ false
unfolding can_commit
can_commit-none s i h = ground (arith, h)

done-injective : {A : Type 0} {a b : A} {s t : Server} → done a s ≡ done b t → s ≡ t
done-injective e = cc

stays-Finished :
    (current : ℕ) (s t : Server)
    → current ≤ s.state.commit_idx
    → can_commit s current ≡ false
    → s ≡ t
    → Finished s t
stays-Finished current s t h y e =
    subst (λ u. Finished s u) e (can_commit-later s current s.state.commit_idx h y, refl)

continue-Finished :
    (idx : ℕ) (r : Outcome (Unit {0})) (m : M (Unit {0})) (s t : Server)
    → pending (final r) ≡ pending s
    → ((u : Server) → r ≡ done tt u → idx ≤ u.state.commit_idx)
    → ((u : Server)
        → pending u ≡ pending s
        → idx ≤ u.state.commit_idx
        → m u ≡ done tt t
        → Finished u t)
    → continue r (λ _. m) ≡ done tt t
    → Finished s t
continue-Finished idx (done a u) m s t p h k e = let f = k u p (h u refl) e in (f.0, f.1 ∙ p)
continue-Finished idx (exited c u) m s t p h k e = absurd cc
continue-Finished idx (thrown x u) m s t p h k e = absurd cc

commit_loop-Finished :
    (fuel current : ℕ) (s t : Server)
    → s.quick_commit_idx < 2 ^ 64
    → s.quick_commit_idx ≤ current + fuel
    → current ≤ s.state.commit_idx
    → commit_loop fuel current s ≡ done tt t
    → Finished s t
unfolding commit_loop commit_one
commit_loop-Finished zero current s t w h c e =
    stays-Finished current s t c (can_commit-none s current (omega (arith, h))) (done-injective e)
commit_loop-Finished (suc fuel) current s t w h c e = elim (Bool-cases (can_commit s current)) [
  | inl y ↦
      let l = can_commit-lt s current y in
      let next : add64 current 1 ≡ suc current = omega (arith, l, w) in
      continue-Finished (suc current) (commit_entry (suc current) s)
        (commit_loop fuel (suc current)) s t ((commit_entry-Kept (suc current)).at s)
        (λ u. (commit_entry-Reaches (suc current)).at s u)
        (λ u p i x.
          let q : u.quick_commit_idx ≡ s.quick_commit_idx = ap (λ v. v.0) p in
          commit_loop-Finished fuel (suc current) u t (omega (arith, q, w)) (omega (arith, q, h)) i
            x)
        (rw (y, next) at e)
  | inr y ↦ stays-Finished current s t c y (done-injective (rw y at e))
]

save_state_now : M (Unit {0})
save_state_now = gets (λ t. t.state) >>= λ st. emit (save_state st)

halt-Finished :
    (r : Outcome (Unit {0})) (s t : Server)
    → ((u : Server) → r ≡ done tt u → Finished s u)
    → halt_thrown (continue r (λ _. save_state_now)) ≡ done tt t
    → Finished s t
unfolding halt_thrown save_state_now can_commit
halt-Finished (done a u) s t h e = subst (λ v. Finished s v) (done-injective e) (h u refl)
halt-Finished (exited c u) s t h e = absurd cc
halt-Finished (thrown x u) s t h e = absurd cc

-- The committing loop ends: as many rounds as there are entries to commit are enough, and more rounds
-- make no difference. The index to be committed fits an ulong.
pub commit_loop-enough :
    (rounds : ℕ) (s : Server)
    → s.quick_commit_idx < 2 ^ 64
    → s.quick_commit_idx - s.state.commit_idx ≤ rounds
    → commit_loop rounds s.state.commit_idx s
      ≡ commit_loop (s.quick_commit_idx - s.state.commit_idx) s.state.commit_idx s
commit_loop-enough rounds s w h =
    commit_loop-more (s.quick_commit_idx - s.state.commit_idx) rounds s.state.commit_idx s w
      (omega arith) h

committed-all :
    (t : Server)
    → t.log.start + length t.log.entries < 2 ^ 64
    → can_commit t t.state.commit_idx ≡ false
    → (t.quick_commit_idx ≤ t.state.commit_idx)
      ⊎ (t.log.start + length t.log.entries ≤ t.state.commit_idx + 1)
unfolding can_commit Log.next_slot
committed-all t w y = ground (arith, w, y)

-- Where no exception ends the process, a run of the committing thread commits all that it can: the commit
-- index then is the index that is to be committed or behind it, or that of the last entry of the log
-- or behind it. The index that is to be committed and the log are as before. That index and those of the
-- log fit an ulong.
pub commit_round-finished :
    (s t : Server)
    → s.quick_commit_idx < 2 ^ 64
    → s.log.start + length s.log.entries < 2 ^ 64
    → commit_round s ≡ done tt t
    → ((s.quick_commit_idx ≤ t.state.commit_idx)
        ⊎ (s.log.start + length s.log.entries ≤ t.state.commit_idx + 1))
      × ((t.quick_commit_idx ≡ s.quick_commit_idx) × (t.log ≡ s.log))
unfolding commit_round or_halt save_state_now
commit_round-finished s t w l e =
    let f =
      halt-Finished (commit_loop (s.quick_commit_idx - s.state.commit_idx) s.state.commit_idx s) s t
        (λ u h.
          commit_loop-Finished (s.quick_commit_idx - s.state.commit_idx) s.state.commit_idx s u w
            (omega arith) (omega arith) h)
        e in
    let q = ap (λ p. p.0) f.1 in
    let k = ap (λ p. p.1) f.1 in (rw (← q, ← k) (committed-all t (rw k l) f.0), (q, k))
