-- ===== src/Store/Compact.antt =====
-- fs_log_store.cxx: compact. The backups are made and the files are removed, opened and cut without
-- failing; what follows a failure is in Store/Restore.
use cornerstone.Common.{
  List, [], ◌∷◌, ℕ, zero, suc, ◌/◌, Bool, true, if◌then◌else◌, ltb, leb, add64, sub64, length, drop,
}
use cornerstone.Buffer.{Result, ok, err, range_error, sz_ulong, get_ulong}
use cornerstone.Store.File
use cornerstone.Store.File.{File}
use cornerstone.Store.Memory
use cornerstone.Store.State.{
  M, ◌>>=◌, ◌>>◌, pure, throw, lift, get, modify, Which, idx, dat, sti, seek, seek_end, tell,
  read_ulong, write_ulong, truncate_file, mul64, file_of, change_file,
}
use cornerstone.Store.Bulk.{refill}

-- `out << in.rdbuf()`: what is left of a file, into another; nothing to copy counts as a failure.
unfoldable pub copy_bytes : File → List ℕ → File
copy_bytes out [] = record out { failed = true }
copy_bytes out (x ∷ xs) = File.write out (x ∷ xs)

unfoldable pub copy_rest : File → File → File
unfolding copy_bytes
copy_rest out f = copy_bytes out (if f.is_open then drop f.pos f.bytes else [])

-- A backup file, from the front of a file of the store; it is left at its end.
unfoldable pub backup : Which → M File
backup w = do
  seek w 0
  s ← get
  change_file w (λ f. record f { pos = length f.bytes })
  pure (copy_rest (File.file [] 0) (file_of w s))

-- All entries go.
unfoldable pub clear_all : ℕ → M (Unit {0})
clear_all last_log_index = do
  change_file idx (λ f. File.open_ate [])
  change_file dat (λ f. File.open_ate [])
  seek sti 0
  write_ulong sti (add64 last_log_index 1)
  modify (λ s. record s {
    start_idx = add64 last_log_index 1;
    entries_in_store = 0;
    buf = Memory.reset s.buf (add64 last_log_index 1);
  })

-- A round of the loop over the offsets that stay, which are moved down by the bytes that go.
unfoldable pub move_round : ℕ → Result (List ℕ) → M File → M File
move_round data_pos (err e) next s = (err e, s)
move_round data_pos (ok bytes) next s =
    (do
      (p, b) ← lift (get_ulong (record { bytes = bytes; pos = 0 }))
      write_ulong idx (sub64 p data_pos)
      next)
      s

-- The loop. The backup file is a local of the code: it is threaded through the rounds.
unfoldable pub move_offsets : ℕ → ℕ → File → M File
unfolding move_round
move_offsets zero data_pos bak s = (ok bak, s)
move_offsets (suc rounds) data_pos bak s =
    move_round data_pos (File.read bak sz_ulong).0
      (move_offsets rounds data_pos (File.read bak sz_ulong).1) s

-- The entries up to an index go.
unfoldable pub clear_front : ℕ → File → File → M (Unit {0})
clear_front last_log_index idx_bak data_bak = do
  s ← get
  let idx_pos = mul64 (add64 (sub64 last_log_index s.start_idx) 1) sz_ulong
  seek idx idx_pos
  data_pos ← read_ulong idx
  seek_end idx
  seek_end dat
  idx_end ← tell idx
  data_end ← tell dat
  let idx_len = sub64 idx_end idx_pos
  seek dat 0
  change_file dat (λ f. copy_rest f (File.seek data_bak data_pos))
  truncate_file dat (sub64 data_end data_pos)
  seek idx 0
  move_offsets (idx_len / sz_ulong) data_pos (File.seek idx_bak idx_pos)
  truncate_file idx idx_len
  seek sti 0
  write_ulong sti (add64 last_log_index 1)
  modify (λ s. record s {
    entries_in_store = sub64 s.entries_in_store (add64 (sub64 last_log_index s.start_idx) 1);
    start_idx = add64 last_log_index 1;
  })
  refill

unfoldable pub compact : ℕ → M Bool
compact last_log_index = do
  s ← get
  if ltb last_log_index s.start_idx then throw range_error else (do
    idx_bak ← backup idx
    data_bak ← backup dat
    start_idx_bak ← backup sti
    (if leb (sub64 (add64 s.start_idx s.entries_in_store) 1) last_log_index
        then clear_all last_log_index
        else clear_front last_log_index idx_bak data_bak)
    pure true)
