-- ===== src/Store/Ops.antt =====
-- fs_log_store.cxx: the operations of the store that read and write single entries.
use cornerstone.Common.{
  ℕ, if◌then◌else◌, ◌||◌, Option, none, some, not, ◌&&◌, ltb, leb, add64, sub64, to_int32, to_ulong,
}
use cornerstone.Buffer.{ok, range_error, sz_ulong}
use cornerstone.Codec.Entry.{LogEntry, serialize, deserialize}
use cornerstone.Log.{empty_entry}
use cornerstone.Store.Memory
use cornerstone.Store.State.{
  Store, M, ◌>>=◌, ◌>>◌, pure, throw, lift, get, modify, idx, dat, seek, seek_end, tell,
  read_buffer, write_buffer, read_ulong, write_ulong, check_files, truncate_file, mul64,
}

unfoldable pub next_slot : Store → ℕ
next_slot s = add64 s.start_idx s.entries_in_store

unfoldable pub start_index : Store → ℕ
start_index s = s.start_idx

unfoldable pub or_empty : Option LogEntry → LogEntry
or_empty none = empty_entry
or_empty (some e) = e

unfoldable pub last_entry : Store → LogEntry
unfolding or_empty
last_entry s = or_empty (Memory.last_entry s.buf)

unfoldable pub append : LogEntry → M ℕ
append entry = do
  seek_end idx
  seek_end dat
  data_pos ← tell dat
  write_ulong idx data_pos
  entry_buf ← lift (serialize entry)
  write_buffer dat entry_buf
  modify (λ s. record s {
    buf = Memory.append s.buf entry;
    entries_in_store = add64 s.entries_in_store 1;
  })
  check_files
  s ← get
  pure (sub64 (add64 s.start_idx s.entries_in_store) 1)

-- Where `write_at` puts the bytes of the entry.
unfoldable pub seek_entry : ℕ → ℕ → M (Unit {0})
seek_entry local_idx idx_pos s =
    if leb local_idx s.entries_in_store
    then (do seek idx idx_pos; p ← read_ulong idx; seek dat p) s
    else seek_end dat s

-- Both files end where the index file was written last, if it was longer.
unfoldable pub cut_files : ℕ → ℕ → M (Unit {0})
cut_files nidx_len ndata_len = do
  seek_end idx
  idx_len ← tell idx
  if ltb nidx_len idx_len
      then (do truncate_file idx nidx_len; truncate_file dat ndata_len)
      else pure tt

-- The entry takes its place in the buffer.
unfoldable pub place : ℕ → ℕ → LogEntry → Store → Store
place index local_idx entry s = record s {
  buf =
      Memory.append (if leb local_idx s.entries_in_store then Memory.trim s.buf index else s.buf)
        entry;
  entries_in_store = local_idx;
}

unfoldable pub write_at : ℕ → LogEntry → M (Unit {0})
write_at index entry = do
  s ← get
  if ltb index s.start_idx || ltb (add64 s.start_idx s.entries_in_store) index
      then throw range_error
      else (do
        let local_idx = add64 (sub64 index s.start_idx) 1
        let idx_pos = mul64 (sub64 local_idx 1) sz_ulong
        seek_entry local_idx idx_pos
        seek idx idx_pos
        data_pos ← tell dat
        write_ulong idx data_pos
        ebuf ← lift (serialize entry)
        write_buffer dat ebuf
        ndata_len ← tell dat
        nidx_len ← tell idx
        cut_files nidx_len ndata_len
        modify (place index local_idx entry)
        check_files)

-- The entry between two offsets in the data file; its size is an int.
unfoldable pub read_entry : ℕ → ℕ → M LogEntry
read_entry d_pos end_d_pos = do
  seek dat d_pos
  entry_buf ← read_buffer dat (to_ulong (to_int32 (sub64 end_d_pos d_pos)))
  lift (deserialize entry_buf)

-- The entry that is not in the buffer, from the files.
unfoldable pub load_entry : ℕ → M (Option LogEntry)
load_entry index = do
  s ← get
  if ltb index s.start_idx then throw range_error else (do
    check_files
    if leb (add64 s.start_idx s.entries_in_store) index then pure none else (do
      seek idx (mul64 (sub64 index s.start_idx) sz_ulong)
      d_pos ← read_ulong idx
      end_d_pos ← read_ulong idx
      entry ← read_entry d_pos end_d_pos
      pure (some entry)))

unfoldable pub or_load : Option LogEntry → ℕ → M (Option LogEntry)
or_load (some e) index s = (ok (some e), s)
or_load none index s = load_entry index s

unfoldable pub entry_at : ℕ → M (Option LogEntry)
unfolding or_load
entry_at index s = or_load (Memory.at s.buf index) index s

-- The term of an entry, from the files.
unfoldable pub load_term : ℕ → M ℕ
load_term index = do
  s ← get
  if ltb index s.start_idx then throw range_error else (do
    check_files
    seek idx (mul64 (to_ulong (to_int32 (sub64 index s.start_idx))) sz_ulong)
    d_pos ← read_ulong idx
    seek dat d_pos
    read_ulong dat)

unfoldable pub term_at : ℕ → M ℕ
term_at index s =
    if not (ltb index (Memory.first_idx s.buf)) && ltb index (Memory.last_idx s.buf)
    then (Memory.get_term s.buf index, s)
    else load_term index s
