-- ===== src/Raft/Loops.antt =====
-- raft_server.cxx: the rounds of the loops that store the entries of a leader.
use cornerstone.Common.{
  ℕ, ◌+◌, ◌-◌, ◌≡◌, refl, sym, ap, ◌∙◌, List, [], ◌∷◌, ◌++◌, length, get_elem?, true, false, some,
  ltb, ◌==◌, arith, length-append, append_assoc, append-nil, lt→ltb, le→ltb_false, take-append,
}
use cornerstone.Buffer
use cornerstone.Codec.Entry.{LogEntry, LogValType, app_log, conf}
use cornerstone.Log
use cornerstone.Raft.Server.{Server, Outcome, M, done, continue}
use cornerstone.Raft.Append.{
  skip_round, undo_typed, undo_entry, write_round, write_over, announce_typed, announce_entry,
  append_entry, append_new,
}

-- The method returns, and what holds of the result and the new state.
pub record Returns {A : Type 0} (o : Outcome A) (P : A → Server → Type 0) : Type 0 where
  pub result : A
  pub after : Server
  pub ends : o ≡ done result after
  pub holds : P result after

pub Returns-bind :
    {A B : Type 0} {P : A → Server → Type 0} {Q : B → Server → Type 0} (o : Outcome A) (f : A → M B)
    → Returns o P
    → ((a : A) (u : Server) → P a u → Returns (f a u) Q)
    → Returns (continue o f) Q
Returns-bind o f r k = rw r.ends (k r.result r.after r.holds)

abbrev pub log_of : ℕ → List LogEntry → Log.Log
log_of start entries = record { start = start; entries = entries }

announce_typed-Returns :
    (idx : ℕ) (buf : List ℕ) (t : LogValType) (s : Server)
    → Returns (announce_typed idx buf t s) (λ _ u. u.log ≡ s.log)
unfolding announce_typed
announce_typed-Returns idx buf conf s = record { result = _; after = _; ends = refl; holds = refl }
announce_typed-Returns idx buf _ s = record { result = _; after = _; ends = refl; holds = refl }

undo_typed-Returns :
    (idx : ℕ) (buf : List ℕ) (t : LogValType) (s : Server)
    → Returns (undo_typed idx buf t s) (λ _ u. u.log ≡ s.log)
unfolding undo_typed
undo_typed-Returns idx buf app_log s = record { result = _; after = _; ends = refl; holds = refl }
undo_typed-Returns idx buf conf s = record { result = _; after = _; ends = refl; holds = refl }
undo_typed-Returns idx buf _ s = record { result = _; after = _; ends = refl; holds = refl }

append_entry-Returns :
    (e : LogEntry) (s : Server) → Returns (append_entry e s) (λ _ u. u.log ≡ Log.append s.log e)
unfolding append_entry announce_entry
append_entry-Returns e s =
    announce_typed-Returns (Log.next_slot s.log) e.buf e.val_type
      (record s { log = Log.append s.log e })

pub append_new-Returns :
    (es : List LogEntry) (start : ℕ) (pre : List LogEntry) (s : Server)
    → s.log ≡ log_of start pre
    → Returns (append_new es s) (λ _ u. u.log ≡ log_of start (pre ++ es))
unfolding append_new Log.append
append_new-Returns [] start pre s h = record {
  result = tt;
  after = s;
  ends = refl;
  holds = h ∙ ap (log_of start) (sym (append-nil pre));
}
append_new-Returns (e ∷ es) start pre s h =
    Returns-bind (append_entry e s) (λ _. append_new es) (append_entry-Returns e s)
      λ _ u k.
        rw (← append_assoc pre (e ∷ []) es)
          (append_new-Returns es start (pre ++ (e ∷ [])) u (k ∙ ap (λ l. Log.append l e) h))

get_elem-append :
    (pre : List LogEntry) (o : LogEntry) (os : List LogEntry)
    → get_elem? (pre ++ (o ∷ os)) (length pre) ≡ some o
get_elem-append [] o os = refl
get_elem-append (p ∷ pre) o os = get_elem-append pre o os

next_slot-append :
    (start : ℕ) (pre old : List LogEntry)
    → Log.next_slot (log_of start (pre ++ old)) ≡ start + length pre + length old
unfolding Log.next_slot
next_slot-append start pre old = omega (arith, length-append pre old)

back : (a b : ℕ) → a + b - a ≡ b
back a b = omega arith

pub entry_at-append :
    (start : ℕ) (pre : List LogEntry) (o : LogEntry) (os : List LogEntry)
    → Log.entry_at (log_of start (pre ++ (o ∷ os))) (start + length pre) ≡ Buffer.ok (some o)
unfolding Log.entry_at
entry_at-append start pre o os =
    rw
      (
        le→ltb_false (start + length pre) start (omega arith),
        back start (length pre),
        get_elem-append pre o os,
      )
      refl

write_at-append :
    (start : ℕ) (pre : List LogEntry) (o : LogEntry) (os : List LogEntry) (e : LogEntry)
    → Log.write_at (log_of start (pre ++ (o ∷ os))) (start + length pre) e
      ≡ Buffer.ok (log_of start (pre ++ (e ∷ [])))
unfolding Log.write_at
write_at-append start pre o os e =
    rw
      (
        le→ltb_false (start + length pre) start (omega arith),
        le→ltb_false (start + length (pre ++ (o ∷ os))) (start + length pre)
            (omega (arith, length-append pre (o ∷ os))),
        back start (length pre),
        take-append pre (o ∷ os),
      )
      refl

-- The loops at an index within the log, and at its end.
module _ (start : ℕ) (pre : List LogEntry) (o : LogEntry) (os : List LogEntry) (e : LogEntry)
    (es : List LogEntry) where
  within : ltb (start + length pre) (Log.next_slot (log_of start (pre ++ (o ∷ os)))) ≡ true
  within = lt→ltb (start + length pre) _ (omega (arith, next_slot-append start pre (o ∷ os)))

  pub skip_same :
      (next : M (ℕ × List LogEntry)) (s : Server)
      → s.log ≡ log_of start (pre ++ (o ∷ os))
      → (o.term == e.term) ≡ true
      → skip_round (start + length pre) e es next s ≡ next s
  unfolding skip_round
  skip_same next s h t = rw (h, within, entry_at-append start pre o os, t) refl

  pub skip_differ :
      (next : M (ℕ × List LogEntry)) (s : Server)
      → s.log ≡ log_of start (pre ++ (o ∷ os))
      → (o.term == e.term) ≡ false
      → skip_round (start + length pre) e es next s ≡ done (start + length pre, e ∷ es) s
  unfolding skip_round
  skip_differ next s h t = rw (h, within, entry_at-append start pre o os, t) refl

  pub write_within :
      (next : M (List LogEntry)) (s : Server)
      → s.log ≡ log_of start (pre ++ (o ∷ os))
      → (u : Server) × ((u.log ≡ log_of start (pre ++ (e ∷ [])))
          × (write_round (start + length pre) e es next s ≡ next u))
  unfolding write_round undo_entry
  write_within next s h =
      let undone = undo_typed-Returns (start + length pre) o.buf o.val_type s in
      let inside = ap (λ l. ltb (start + length pre) (Log.next_slot l)) h ∙ within in
      let found =
        ap (λ l. Log.entry_at l (start + length pre)) h ∙ entry_at-append start pre o os in
      let written =
        ap (λ l. Log.write_at l (start + length pre) e) h ∙ write_at-append start pre o os e in
      (
        record undone.after { log = log_of start (pre ++ (e ∷ [])) },
        (refl, rw (inside, found, undone.ends, written) refl),
      )

past :
    (start : ℕ) (pre : List LogEntry)
    → ltb (start + length pre) (Log.next_slot (log_of start pre)) ≡ false
unfolding Log.next_slot
past start pre = le→ltb_false (start + length pre) (start + length pre) (omega arith)

pub skip_end :
    (start : ℕ) (pre : List LogEntry) (e : LogEntry) (es : List LogEntry)
    (next : M (ℕ × List LogEntry)) (s : Server)
    → s.log ≡ log_of start pre
    → skip_round (start + length pre) e es next s ≡ done (start + length pre, e ∷ es) s
unfolding skip_round
skip_end start pre e es next s h = rw (h, past start pre) refl

pub write_end :
    (start : ℕ) (pre : List LogEntry) (es : List LogEntry) (idx : ℕ) (s : Server)
    → s.log ≡ log_of start pre
    → idx ≡ start + length pre
    → write_over idx es s ≡ done es s
unfolding write_over write_round
write_end start pre [] idx s h i = refl
write_end start pre (e ∷ es) idx s h i = rw (h, i, past start pre) refl
