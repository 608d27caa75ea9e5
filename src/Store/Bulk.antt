-- ===== src/Store/Bulk.antt =====
-- fs_log_store.cxx: the operations that handle many entries: log_entries, fill_buffer, pack, apply_pack,
-- and the constructor.
use cornerstone.Common.{
  ℕ, zero, suc, ◌+◌, ◌-◌, ◌*◌, ◌/◌, ◌^◌, List, [], ◌∷◌, Bool, true, false, if◌then◌else◌, ◌||◌,
  ◌&&◌, Option, none, some, ltb, leb, add64, sub64, to_int32, to_ulong, lt_int32, length, take,
  drop, ◌==◌,
}
use cornerstone.Buffer.{
  Buffer, Result, ok, err, range_error, bad_read, bad_write, get_ulong, get_int, alloc, sz_ulong,
  sz_int, size, set_pos, data_of, put_int, put_buffer,
}
use cornerstone.Codec.Entry.{LogEntry, deserialize}
use cornerstone.Store.File
use cornerstone.Store.Memory
use cornerstone.Store.State.{
  Store, M, ◌>>=◌, ◌>>◌, pure, throw, lift, get, modify, idx, dat, sti, seek, seek_end, tell,
  read_buffer, read_ulong, write_ulong, check_files, truncate_file, mul64, change_file,
}

-- `results[i] = entry`; behind the end of the vector, the code writes to memory that is not its own.
unfoldable pub set_elem : List (Option LogEntry) → ℕ → LogEntry → Result (List (Option LogEntry))
set_elem [] i e = err bad_write
set_elem (x ∷ xs) zero e = ok (some e ∷ xs)
set_elem (x ∷ xs) (suc i) e = elim (set_elem xs i e) [ ok ys ↦ ok (x ∷ ys) | err c ↦ err c ]

-- `rounds` rounds of the loop in `log_entries`, from round `i` on.
unfoldable pub load_entries : ℕ → ℕ → ℕ → List (Option LogEntry) → M (List (Option LogEntry))
load_entries zero i data_start results = pure results
load_entries (suc rounds) i data_start results = do
  data_end ← read_ulong idx
  seek dat data_start
  entry_buf ← read_buffer dat (to_ulong (to_int32 (sub64 data_end data_start)))
  entry ← lift (deserialize entry_buf)
  results ← lift (set_elem results i entry)
  load_entries rounds (i + 1) data_end results

-- The entries that come before the buffer, from the files.
unfoldable pub load_missing : ℕ → ℕ → List (Option LogEntry) → M (List (Option LogEntry))
load_missing lstart buffer_first_idx results = do
  check_files
  s ← get
  let lend = sub64 buffer_first_idx s.start_idx
  seek idx (mul64 lstart sz_ulong)
  data_start ← read_ulong idx
  let n = to_int32 (sub64 lend lstart)
  load_entries (if lt_int32 0 n then n else 0) 0 data_start results

unfoldable pub log_entries : ℕ → ℕ → M (Option (List (Option LogEntry)))
log_entries first last = do
  s ← get
  let slot = add64 s.start_idx s.entries_in_store
  if ltb first s.start_idx
      then throw range_error
      else if leb last first || leb slot first
      then pure none
      else (do
        let lstart = sub64 first s.start_idx
        let lend =
            (if ltb s.entries_in_store (sub64 last s.start_idx)
              then s.entries_in_store
              else sub64 last s.start_idx)
        let good_end = add64 lend s.start_idx
        if leb lend lstart then pure none else (do
          (buffer_first_idx, results) ← lift (Memory.fill s.buf first good_end)
          results ←
              (if ltb first buffer_first_idx
                then load_missing lstart buffer_first_idx results
                else pure results)
          pure (some results)))

-- The loop of `fill_buffer` over the offsets that are left; `fuel` bounds its rounds. The start of the
-- last entry is what it ends with.
unfoldable pub fill_loop : ℕ → Buffer → ℕ → M ℕ
fill_loop zero idx_buf data_start = pure data_start
fill_loop (suc fuel) idx_buf data_start =
    if ltb idx_buf.pos (size idx_buf)
    then (do
      (data_end, idx_buf) ← lift (get_ulong idx_buf)
      buf ← read_buffer dat (sub64 data_end data_start)
      entry ← lift (deserialize buf)
      modify (λ s. record s { buf = Memory.append s.buf entry })
      fill_loop fuel idx_buf data_end)
    else pure data_start

-- The last entry ends where the data file does.
unfoldable pub read_last : ℕ → ℕ → M (Unit {0})
read_last data_file_len data_start = do
  last_buf ← read_buffer dat (sub64 data_file_len data_start)
  entry ← lift (deserialize last_buf)
  modify (λ s. record s { buf = Memory.append s.buf entry })

-- The entries from the first index of the buffer on are read into it.
unfoldable pub read_tail : ℕ → ℕ → M (Unit {0})
read_tail idx_file_len data_file_len = do
  s ← get
  let idx_pos = mul64 (sub64 (Memory.first_idx s.buf) s.start_idx) sz_ulong
  seek idx idx_pos
  idx_buf ← read_buffer idx (sub64 idx_file_len idx_pos)
  (data_start, idx_buf) ← lift (get_ulong idx_buf)
  seek dat data_start
  data_start ← fill_loop (size idx_buf) idx_buf data_start
  read_last data_file_len data_start

-- `tellg() > 0`, where -1 says that the stream has failed.
abbrev positive : ℕ → Bool
positive p = ltb 0 p && ltb p (2 ^ 63)

unfoldable pub fill_buffer : M (Unit {0})
fill_buffer = do
  seek_end idx
  seek_end dat
  idx_file_len ← tell idx
  data_file_len ← tell dat
  if positive idx_file_len then read_tail idx_file_len data_file_len else pure tt

-- Where the buffer begins, for `n` entries: the last `buf_size` of them.
unfoldable pub buffer_start : Store → ℕ
buffer_start s =
    if ltb s.buf_size s.entries_in_store
    then sub64 (add64 s.entries_in_store s.start_idx) s.buf_size
    else s.start_idx

-- The end of `apply_pack` and of `compact`: the buffer anew.
unfoldable pub refill : M (Unit {0})
refill = do modify (λ s. record s { buf = Memory.reset s.buf (buffer_start s) }); fill_buffer

-- The offset where the packed entries end.
unfoldable pub end_of_pack : Bool → M ℕ
end_of_pack true = do seek_end dat; tell dat
end_of_pack false = read_ulong idx

-- The two sizes, the offsets, and the bytes of the entries.
unfoldable pub pack_buffer : Buffer → Buffer → Result Buffer
pack_buffer idx_buf data_buf = elim (alloc (2 * sz_int + size idx_buf + size data_buf)) [
  | err e ↦ err e
  | ok b ↦ elim (put_int b (to_int32 (size idx_buf))) [
    | err e ↦ err e
    | ok b ↦ elim (put_int b (to_int32 (size data_buf))) [
      | err e ↦ err e
      | ok b ↦ elim (put_buffer b idx_buf) [
        | err e ↦ err e
        | ok b ↦ elim (put_buffer b data_buf) [ err e ↦ err e | ok b ↦ ok (set_pos b 0) ]
      ]
    ]
  ]
]

-- `pack`, or the null pointer. `cnt` is an int32.
unfoldable pub pack : ℕ → ℕ → M (Option Buffer)
pack index cnt = do
  s ← get
  if ltb index s.start_idx then throw range_error else (do
    check_files
    let offset = sub64 index s.start_idx
    if leb s.entries_in_store offset then pure none else (do
      let wanted = add64 offset (to_ulong cnt)
      let end_offset = (if ltb s.entries_in_store wanted then s.entries_in_store else wanted)
      seek idx (mul64 (to_ulong (to_int32 offset)) sz_ulong)
      idx_buf ← read_buffer idx (mul64 (to_ulong (to_int32 (sub64 end_offset offset))) sz_ulong)
      end_of_data ← end_of_pack (end_offset == s.entries_in_store)
      (start_of_data, b) ← lift (get_ulong idx_buf)
      seek dat start_of_data
      data_buf ← read_buffer dat (to_ulong (to_int32 (sub64 end_of_data start_of_data)))
      result ← lift (pack_buffer idx_buf data_buf)
      pure (some result)))

-- `n` bytes of a buffer, `off` bytes behind its position; where it has fewer, the code reads behind it.
unfoldable pub bytes_at : Buffer → ℕ → ℕ → Result (List ℕ)
bytes_at b off n =
    if ltb (length (data_of b)) (off + n) then err bad_read else ok (take n (drop off (data_of b)))

-- Where `apply_pack` writes.
unfoldable pub seek_pack : ℕ → M (Unit {0})
seek_pack local_idx s =
    if local_idx == s.entries_in_store
    then (do seek_end idx; seek_end dat) s
    else (do
      let idx_pos = mul64 local_idx sz_ulong
      seek idx idx_pos
      data_pos ← read_ulong idx
      seek idx idx_pos
      seek dat data_pos)
        s

unfoldable pub apply_pack : ℕ → Buffer → M (Unit {0})
apply_pack index b = do
  (idx_len, b) ← lift (get_int b)
  (data_len, b) ← lift (get_int b)
  s ← get
  let local_idx = sub64 index s.start_idx
  seek_pack local_idx
  offsets ← lift (bytes_at b 0 idx_len)
  change_file idx (λ f. File.write f offsets)
  entries ← lift (bytes_at b idx_len data_len)
  change_file dat (λ f. File.write f entries)
  idx_pos ← tell idx
  data_pos ← tell dat
  seek_end idx
  seek_end dat
  idx_end ← tell idx
  (if ltb idx_pos idx_end
      then (do truncate_file idx idx_pos; truncate_file dat data_pos)
      else pure tt)
  check_files
  modify (λ s. record s { entries_in_store = add64 local_idx (to_ulong idx_len / sz_ulong) })
  refill

-- The three files as the constructor finds them; none where there is no file.
pub record Disk : Type 0 where
  pub idx_bytes : Option (List ℕ)
  pub data_bytes : Option (List ℕ)
  pub start_idx_bytes : Option (List ℕ)

-- A negative size of the buffer, an int, is the largest one.
unfoldable pub blank : Disk → ℕ → Store
blank d buf_size = record {
  idx_file = File.open_or_create d.idx_bytes;
  data_file = File.open_or_create d.data_bytes;
  start_idx_file = File.open_or_create d.start_idx_bytes;
  entries_in_store = 0;
  start_idx = 1;
  buf = Memory.new 1 0;
  buf_size = if ltb buf_size (2 ^ 31) then buf_size else 2 ^ 31 - 1;
}

-- The start index, from its file or new.
unfoldable pub load_start : M (Unit {0})
load_start = do
  n ← tell sti
  if positive n
      then (do
        seek sti 0
        start ← read_ulong sti
        idx_len ← tell idx
        modify (λ s. record s { start_idx = start; entries_in_store = idx_len / sz_ulong }))
      else (do
        s ← get
        seek sti 0
        write_ulong sti 1
        modify (λ s. record s { start_idx = 1; entries_in_store = 0 }))

-- The constructor, after the files are open.
unfoldable pub start_store : M (Unit {0})
start_store = do
  load_start
  modify (λ s. record s { buf = Memory.new (buffer_start s) s.buf_size })
  fill_buffer

unfoldable pub open_store : Disk → ℕ → Result (Unit {0}) × Store
open_store d buf_size = start_store (blank d buf_size)

unfoldable pub close : Store → Store
close s = record s {
  idx_file = File.close s.idx_file;
  data_file = File.close s.data_file;
  start_idx_file = File.close s.start_idx_file;
}
