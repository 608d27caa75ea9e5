-- ===== src/Raft/Stale.antt =====
-- raft_server.cxx: entries from a leader whose term has passed.
use cornerstone.Common.{
  ℕ, ◌<◌, ◌≡◌, refl, ◌∙◌, Bool, true, false, ◌==◌, Option, none, some, if◌then◌else◌, arith, lt→ltb,
}
use cornerstone.Buffer
use cornerstone.Codec.Snapshot.{Snapshot}
use cornerstone.Log
use cornerstone.Raft.Types.{ReqMsg, RespMsg, SrvState, resp_msg}
use cornerstone.Raft.Server.{
  Server, Outcome, M, done, exited, thrown, ◌>>=◌, continue, pure, gets, halt, lift,
}
use cornerstone.Raft.Replication.{term_for_log, term_of_snapshot}
use cornerstone.Raft.Append.{prev_okay, handle_append_entries}
use cornerstone.Raft.Run.{final}
use cornerstone.Raft.Votes.{accepted}

-- A method that leaves the log and the persistent state as they are.
pub record Reads {A : Type 0} (m : M A) : Type 0 where
  pub log : (s : Server) → (final (m s)).log ≡ s.log
  pub state : (s : Server) → (final (m s)).state ≡ s.state

Reads-pure : {A : Type 0} (a : A) → Reads (pure a)
Reads-pure a = record { log = λ s. refl; state = λ s. refl }

Reads-gets : {A : Type 0} (f : Server → A) → Reads (gets f)
Reads-gets f = record { log = λ s. refl; state = λ s. refl }

Reads-halt : {A : Type 0} (c d : ℕ) → Reads {A = A} (halt c d)
Reads-halt c d = record { log = λ s. refl; state = λ s. refl }

Reads-lift : {A : Type 0} (r : Buffer.Result A) → Reads (lift r)
Reads-lift (Buffer.ok a) = record { log = λ s. refl; state = λ s. refl }
Reads-lift (Buffer.err e) = record { log = λ s. refl; state = λ s. refl }

Reads-if : {A : Type 0} (b : Bool) (m n : M A) → Reads m → Reads n → Reads (if b then m else n)
Reads-if true m n h k = h
Reads-if false m n h k = k

log-continue :
    {A B : Type 0} (o : Outcome A) (f : A → M B) (l : Log.Log)
    → (final o).log ≡ l
    → ((a : A) → Reads (f a))
    → (final (continue o f)).log ≡ l
log-continue (done a u) f l h k = (k a).log u ∙ h
log-continue (exited c u) f l h k = h
log-continue (thrown e u) f l h k = h

state-continue :
    {A B : Type 0} (o : Outcome A) (f : A → M B) (l : SrvState)
    → (final o).state ≡ l
    → ((a : A) → Reads (f a))
    → (final (continue o f)).state ≡ l
state-continue (done a u) f l h k = (k a).state u ∙ h
state-continue (exited c u) f l h k = h
state-continue (thrown e u) f l h k = h

Reads-bind :
    {A B : Type 0} (m : M A) (f : A → M B) → Reads m → ((a : A) → Reads (f a)) → Reads (m >>= f)
Reads-bind m f h k = record {
  log = λ s. log-continue (m s) f s.log (h.log s) k;
  state = λ s. state-continue (m s) f s.state (h.state s) k;
}

ruleset reads_rules = (Reads-pure, Reads-gets, Reads-halt, Reads-lift, Reads-if, Reads-bind)

term_of_snapshot-Reads : (idx : ℕ) (o : Option Snapshot) → Reads (term_of_snapshot idx o)
unfolding term_of_snapshot
term_of_snapshot-Reads idx none = search reads_rules
term_of_snapshot-Reads idx (some snp) = search reads_rules

term_for_log-Reads : (idx : ℕ) → Reads (term_for_log idx)
unfolding term_for_log
term_for_log-Reads idx = search (reads_rules, term_of_snapshot-Reads) depth 20

prev_okay-Reads : (req : ReqMsg) → Reads (prev_okay req)
unfolding prev_okay
prev_okay-Reads req = search (reads_rules, term_for_log-Reads) depth 20

accepted-continue :
    {A : Type 0} (o : Outcome A) (r : RespMsg)
    → r.accepted ≡ false
    → accepted (continue o (λ _. pure r)) ≡ false
accepted-continue (done a u) r h = h
accepted-continue (exited c u) r h = refl
accepted-continue (thrown e u) r h = refl

-- Entries from a leader of a lower term are not accepted, and change neither the log nor the term,
-- the vote or the commit index.
pub handle_append_entries-stale :
    (s : Server) (req : ReqMsg)
    → req.term < s.state.term
    → (accepted (handle_append_entries req s) ≡ false)
      × (((final (handle_append_entries req s)).log ≡ s.log)
          × ((final (handle_append_entries req s)).state ≡ s.state))
unfolding handle_append_entries resp_msg
handle_append_entries-stale s req h =
    rw (other req.term s.state.term h, lt→ltb req.term s.state.term h)
      (
        accepted-continue (prev_okay req s) _ refl,
        (
          log-continue (prev_okay req s) _ s.log ((prev_okay-Reads req).log s) (λ a. Reads-pure _),
          state-continue (prev_okay req s) _ s.state ((prev_okay-Reads req).state s)
              (λ a. Reads-pure _),
        ),
      )
  where
    other : (a b : ℕ) → a < b → (a == b) ≡ false
    other a b l = ground (arith, l)
