-- ===== src/Runs/Store.antt =====
-- The theorems on the log store at concrete values.
use cornerstone.Common.{true, false, ◌≡◌, refl, [], ◌∷◌, arith, some, inl, All}
use cornerstone.Buffer.{bad_write, err, io_failure, ok, ulong_bytes}
use cornerstone.Codec.Entry.{LogEntry, app_log, IsEntry, image}
use cornerstone.Log
use cornerstone.Log.{Log}
use cornerstone.Store.State.{Store}
use cornerstone.Store.Ops
use cornerstone.Store.Bulk.{open_store, close}
use cornerstone.Store.Layout.{images}
use cornerstone.Store.Shape.{shape, IsKept, Keeps}
use cornerstone.Store.Refine.{entry_at-Keeps}
use cornerstone.Store.Terms.{term_at-Keeps}
use cornerstone.Store.Appends.{append-Keeps}
use cornerstone.Store.Writing.{write_at-Keeps}
use cornerstone.Store.Queries.{appends, term_at-append_failed}
use cornerstone.Store.Compact.{compact}
use cornerstone.Store.Compacts.{compact-Keeps}
use cornerstone.Buffer.{runtime_error}
use cornerstone.Store.State.{dat}
use cornerstone.Store.File
use cornerstone.Store.Restore.{restore, cut_short, at}
use cornerstone.Store.Losses.{restore-lost}
use cornerstone.Store.Entries.{log_entries-Keeps, log_entries-bad_write}
use cornerstone.Store.Bulk
use cornerstone.Store.Leftovers.{write_at-entry_at_stale}
use cornerstone.Store.Restart.{disk_of, open_store-close}

abbrev first : LogEntry
first = record { term = 3; val_type = app_log; buf = 7 ∷ 8 ∷ [] }

abbrev second : LogEntry
second = record { term = 4; val_type = app_log; buf = 9 ∷ [] }

abbrev a_log : Log
a_log = record { start = 5; entries = first ∷ second ∷ [] }

-- The second entry alone is in the buffer.
abbrev a_store : Store
a_store = shape a_log 1 1 (record { idx = 0; dat = 0; sti = 0 })

first-IsEntry : IsEntry first
first-IsEntry = record { term = omega arith; named = tt; fits = omega arith }

second-IsEntry : IsEntry second
second-IsEntry = record { term = omega arith; named = tt; fits = omega arith }

a_log-IsKept : IsKept a_log 1 1
unfolding images image ulong_bytes
a_log-IsKept = record {
  entries = (first-IsEntry, (second-IsEntry, tt));
  slots = omega arith;
  offsets = omega arith;
  bytes = omega arith;
  first = omega arith;
  last = λ _. omega arith;
  window = omega arith;
  size = omega arith;
  max = omega arith;
}

a_store-Keeps : Keeps a_store a_log
a_store-Keeps = record {
  first = 1;
  size = 1;
  places = record { idx = 0; dat = 0; sti = 0 };
  same = refl;
  kept = a_log-IsKept;
}

entry_at-Keeps_example :
    ((Ops.entry_at 5 a_store).0 ≡ ok (some first)) × Keeps (Ops.entry_at 5 a_store).1 a_log
unfolding Log.entry_at
entry_at-Keeps_example = entry_at-Keeps a_store a_log 5 a_store-Keeps (omega arith)

term_at-Keeps_example : ((Ops.term_at 5 a_store).0 ≡ ok 3) × Keeps (Ops.term_at 5 a_store).1 a_log
unfolding Log.term_at Log.term_of Log.next_slot
term_at-Keeps_example = term_at-Keeps a_store a_log 5 a_store-Keeps (omega arith)

append-Keeps_example :
    ((Ops.append first a_store).0 ≡ ok 7)
    × Keeps
        (Ops.append first a_store).1
        (record { start = 5; entries = first ∷ second ∷ first ∷ [] })
unfolding Log.append Log.next_slot images image ulong_bytes
append-Keeps_example =
    append-Keeps a_store a_log first a_store-Keeps first-IsEntry (omega arith) (omega arith)
      (omega arith)

open_store-close_example :
    ((open_store (disk_of (close a_store)) 2).0 ≡ ok tt)
    × Keeps (open_store (disk_of (close a_store)) 2).1 a_log
open_store-close_example =
    open_store-close a_store a_log 2 a_store-Keeps (omega arith) (omega arith)

write_at-Keeps_example :
    (r : Log) × ((Log.write_at a_log 6 first ≡ ok r)
      × (((Ops.write_at 6 first a_store).0 ≡ ok tt) × Keeps (Ops.write_at 6 first a_store).1 r))
unfolding images image ulong_bytes Log.next_slot
write_at-Keeps_example =
    write_at-Keeps a_store a_log 6 first a_store-Keeps first-IsEntry (omega arith) (omega arith)
      (omega arith) (omega arith) (omega arith) (λ _. omega arith)

term_at-append_failed_example :
    ((Ops.term_at 7 a_store).0 ≡ err io_failure)
    × All (λ r. r ≡ err io_failure) (appends (first ∷ second ∷ []) (Ops.term_at 7 a_store).1)
unfolding Log.next_slot
term_at-append_failed_example =
    term_at-append_failed a_store a_log (first ∷ second ∷ []) a_store-Keeps

compact-Keeps_example :
    (r : Log) × ((Log.compact a_log 5 ≡ ok r)
      × (((compact 5 a_store).0 ≡ ok true) × Keeps (compact 5 a_store).1 r))
compact-Keeps_example =
    compact-Keeps a_store a_log 5 a_store-Keeps (omega arith) (omega arith) (omega arith)

log_entries-Keeps_example :
    ((Bulk.log_entries 5 9 a_store).0 ≡ ok (some (some first ∷ some second ∷ [])))
    × Keeps (Bulk.log_entries 5 9 a_store).1 a_log
unfolding Log.log_entries
log_entries-Keeps_example =
    log_entries-Keeps a_store a_log 5 9 a_store-Keeps (inl (omega arith)) (omega arith)

-- A store of three entries, of which the last two are in the buffer.
abbrev long_log : Log
long_log = record { start = 5; entries = first ∷ second ∷ first ∷ [] }

abbrev long_store : Store
long_store = shape long_log 1 2 (record { idx = 0; dat = 0; sti = 0 })

long_log-IsKept : IsKept long_log 1 2
unfolding images image ulong_bytes
long_log-IsKept = record {
  entries = (first-IsEntry, (second-IsEntry, (first-IsEntry, tt)));
  slots = omega arith;
  offsets = omega arith;
  bytes = omega arith;
  first = omega arith;
  last = λ _. omega arith;
  window = omega arith;
  size = omega arith;
  max = omega arith;
}

long_store-Keeps : Keeps long_store long_log
long_store-Keeps = record {
  first = 1;
  size = 2;
  places = record { idx = 0; dat = 0; sti = 0 };
  same = refl;
  kept = long_log-IsKept;
}

write_at-entry_at_stale_example :
    (Ops.next_slot (Ops.write_at 5 second long_store).1 ≡ 6)
    × ((Ops.entry_at 7 (Ops.write_at 5 second long_store).1).0 ≡ ok (some first))
unfolding Log.next_slot
write_at-entry_at_stale_example =
    write_at-entry_at_stale long_store long_log 5 second 7 long_store-Keeps second-IsEntry
      (omega arith) (omega arith) (omega arith) (omega arith) (omega arith)

-- The same log, of which the last entry alone is in the buffer.
abbrev short_store : Store
short_store = shape long_log 2 1 (record { idx = 0; dat = 0; sti = 0 })

short_log-IsKept : IsKept long_log 2 1
unfolding images image ulong_bytes
short_log-IsKept = record {
  entries = (first-IsEntry, (second-IsEntry, (first-IsEntry, tt)));
  slots = omega arith;
  offsets = omega arith;
  bytes = omega arith;
  first = omega arith;
  last = λ _. omega arith;
  window = omega arith;
  size = omega arith;
  max = omega arith;
}

short_store-Keeps : Keeps short_store long_log
short_store-Keeps = record {
  first = 2;
  size = 1;
  places = record { idx = 0; dat = 0; sti = 0 };
  same = refl;
  kept = short_log-IsKept;
}

log_entries-bad_write_example : (Bulk.log_entries 5 6 short_store).0 ≡ err bad_write
log_entries-bad_write_example =
    log_entries-bad_write short_store long_log 5 6 short_store-Keeps (omega arith) (omega arith)
      (omega arith)

restore-lost_example :
    ((restore (cut_short a_store)).0 ≡ err runtime_error)
    × (((restore (cut_short a_store)).1.exists dat ≡ false)
        × (((restore (cut_short a_store)).1.backups dat).bytes ≡ []))
unfolding cut_short at File.close
restore-lost_example = restore-lost (cut_short a_store) refl
