-- ===== src/Raft/Votes.antt =====
-- raft_server.cxx: what a vote means.
use cornerstone.Common.{
  ◌≡◌, ◌≤◌, ◌<◌, refl, sym, ◌∙◌, ◌≢◌, ◌⊎◌, inl, inr, arith, true, false, Bool, minus_one, sub64,
  Bool-cases, ℕ, ◌+◌, ltb, leb, length, [],
}
use cornerstone.Log
use cornerstone.Buffer.{ok, err, range_error}
use cornerstone.Raft.Types.{ReqMsg, RespMsg, set_voted_for, accept, resp_msg}
use cornerstone.Raft.Server.{Server, Outcome, done}
use cornerstone.Raft.Election.{log_okay, grants, handle_vote_req}
use cornerstone.Raft.Run.{final, Run}
use cornerstone.Raft.State.Keeps.{Advances}
use cornerstone.Raft.State.Runs.{Run-Advances}

abbrev pub accepted : Outcome RespMsg → Bool
accepted (done r s) = r.accepted
accepted _ = false

-- The order of logs in Raft: first by the term of the last entry, then by its index.
abbrev IsUpToDate : ReqMsg → Log.Log → Type 0
IsUpToDate req log =
    ((Log.last_entry log).term < req.last_log_term)
    ⊎ ((req.last_log_term ≡ (Log.last_entry log).term)
        × (sub64 (Log.next_slot log) 1 ≤ req.last_log_idx))

-- What a server asks of a candidate to vote for it.
record MayVote (s : Server) (req : ReqMsg) : Type 0 where
  term : req.term ≡ s.state.term
  log : IsUpToDate req s.log
  free : (s.state.voted_for ≡ req.src) ⊎ (s.state.voted_for ≡ minus_one)

grants→MayVote : (s : Server) (req : ReqMsg) → grants s req ≡ true → MayVote s req
unfolding grants log_okay
grants→MayVote s req h = record {
  term = ground (arith, h);
  log = ground (arith, h);
  free = ground (arith, h);
}

MayVote→grants : (s : Server) (req : ReqMsg) → MayVote s req → grants s req ≡ true
unfolding grants log_okay
MayVote→grants s req h = ground (arith, h.term, h.log, h.free)

accepted_lem : (s : Server) (req : ReqMsg) → accepted (handle_vote_req req s) ≡ grants s req
unfolding handle_vote_req accept resp_msg
accepted_lem s req = elim (Bool-cases (grants s req)) [ inl h ↦ rw h refl | inr h ↦ rw h refl ]

-- A vote is given exactly when `grants` allows it.
handle_vote_req-accepted :
    (s : Server) (req : ReqMsg)
    → ((accepted (handle_vote_req req s) ≡ true) → MayVote s req)
      × (MayVote s req → accepted (handle_vote_req req s) ≡ true)
handle_vote_req-accepted s req = (
  (λ h. grants→MayVote s req (sym (accepted_lem s req) ∙ h)),
  λ m. accepted_lem s req ∙ MayVote→grants s req m,
)

vote_saved :
    (s : Server) (req : ReqMsg)
    → grants s req ≡ true
    → (final (handle_vote_req req s)).state ≡ set_voted_for s.state req.src
unfolding handle_vote_req
vote_saved s req h = rw h refl

-- A server that has voted for one candidate votes for no other in the same term, whatever happens in
-- between but joining a cluster or an election at the last 64-bit term. The id -1 stands for no vote,
-- so no candidate has it.
pub second_vote :
    (s t : Server) (a b : ReqMsg)
    → accepted (handle_vote_req a s) ≡ true
    → a.src ≢ minus_one
    → Run (final (handle_vote_req a s)) t
    → a.term ≡ b.term
    → accepted (handle_vote_req b t) ≡ true
    → b.src ≡ a.src
unfolding set_voted_for
second_vote s t a b ha named run e hb =
    ground (arith, named, second.free, after.voted_for (omega (arith, first.term, second.term, e)))
  where
    first : MayVote s a
    first = (handle_vote_req-accepted s a).0 ha

    second : MayVote t b
    second = (handle_vote_req-accepted t b).0 hb

    after : Advances (set_voted_for s.state a.src) t.state
    after =
        rw (← vote_saved s a (MayVote→grants s a first))
          (Run-Advances (final (handle_vote_req a s)) t run)

same_log : {l r : Log.Log} → ok l ≡ ok r → r ≡ l
same_log e = cc

le→leb : (a b : ℕ) → a ≤ b → leb a b ≡ true
le→leb a b h = ground (arith, h)

compact-whole :
    (l r : Log.Log) (idx : ℕ)
    → Log.next_slot l ≤ idx + 1
    → Log.compact l idx ≡ ok r
    → Log.last_entry r ≡ Log.empty_entry
unfolding Log.compact Log.next_slot Log.last_entry Log.last_of
compact-whole l r idx h e = elim (Bool-cases (ltb idx l.start)) [
  | inl y ↦ let q : err range_error ≡ ok r = rw y at e in cc q
  | inr y ↦
      let q : ok (record { start = idx + 1; entries = [] }) ≡ ok r =
        rw (y, le→leb (l.start + length l.entries) (idx + 1) h) at e in
      rw (same_log q) refl
]

-- Once the whole log was compacted, which leaves the state as it is, a server without a vote in its term
-- votes for any candidate of the term whose last entry has a term other than 0, however far the log of that
-- candidate is behind the one that was compacted.
pub handle_vote_req-compacted :
    (s : Server) (req : ReqMsg) (r : Log.Log) (idx : ℕ)
    → Log.next_slot s.log ≤ idx + 1
    → Log.compact s.log idx ≡ ok r
    → req.term ≡ s.state.term
    → s.state.voted_for ≡ minus_one
    → 0 < req.last_log_term
    → accepted (handle_vote_req req (record s { log = r })) ≡ true
handle_vote_req-compacted s req r idx h e t free z =
    (handle_vote_req-accepted (record s { log = r }) req).1
      (record { term = t; log = inl (rw (compact-whole s.log r idx h e) z); free = inr free })
