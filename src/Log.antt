-- ===== src/Log.antt =====
-- log_store.hxx: the log that the server keeps, as the operations of the interface show it. What the
-- interface leaves open is as fs_log_store.cxx has it: `write_at` drops what follows, an index below
-- the start is a range error, a term behind the end is a read failure.
use cornerstone.Common.{
  ℕ, ◌+◌, ◌-◌, List, [], ◌∷◌, ◌++◌, length, take, drop, get_elem?, ◌||◌, Option, none, some, ltb,
  leb, if◌then◌else◌,
}
use cornerstone.Buffer.{Result, ok, err, range_error, io_failure}
use cornerstone.Codec.Entry.{LogEntry, app_log}

-- The entry with index `start + i` is element `i`.
pub record Log : Type 0 where
  pub start : ℕ
  pub entries : List LogEntry

unfoldable pub next_slot : Log → ℕ
next_slot l = l.start + length l.entries

unfoldable pub start_index : Log → ℕ
start_index l = l.start

-- The dummy entry of an empty store.
abbrev pub empty_entry : LogEntry
empty_entry = record { term = 0; val_type = app_log; buf = [] }

unfoldable pub last_of : List LogEntry → LogEntry
last_of [] = empty_entry
last_of (e ∷ []) = e
last_of (e ∷ f ∷ es) = last_of (f ∷ es)

unfoldable pub last_entry : Log → LogEntry
last_entry l = last_of l.entries

-- The new log; the entry's index is the `next_slot` of the old one.
unfoldable pub append : Log → LogEntry → Log
append l e = record l { entries = l.entries ++ (e ∷ []) }

unfoldable pub write_at : Log → ℕ → LogEntry → Result Log
write_at l index e =
    if ltb index l.start || ltb (l.start + length l.entries) index
    then err range_error
    else ok (record l { entries = take (index - l.start) l.entries ++ (e ∷ []) })

-- The entries of [first, last), or the null pointer where there are none.
unfoldable pub log_entries : Log → ℕ → ℕ → Result (Option (List LogEntry))
log_entries l first last =
    if ltb first l.start
    then err range_error
    else if leb last first || leb (l.start + length l.entries) first
    then ok none
    else ok (some (take (last - first) (drop (first - l.start) l.entries)))

unfoldable pub entry_at : Log → ℕ → Result (Option LogEntry)
entry_at l index =
    if ltb index l.start then err range_error else ok (get_elem? l.entries (index - l.start))

unfoldable pub term_of : Option LogEntry → Result ℕ
term_of none = err io_failure
term_of (some e) = ok e.term

unfoldable pub term_at : Log → ℕ → Result ℕ
unfolding term_of
term_at l index =
    if ltb index l.start then err range_error else term_of (get_elem? l.entries (index - l.start))

-- The log without the entries up to `last_log_index`.
unfoldable pub compact : Log → ℕ → Result Log
compact l last_log_index =
    if ltb last_log_index l.start
    then err range_error
    else if leb (l.start + length l.entries) (last_log_index + 1)
    then ok (record { start = last_log_index + 1; entries = [] })
    else ok (record {
      start = last_log_index + 1;
      entries = drop (last_log_index + 1 - l.start) l.entries;
    })
