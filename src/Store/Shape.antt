-- ===== src/Store/Shape.antt =====
-- fs_log_store.cxx: the states of a store that keeps a log.
use cornerstone.Common.{ℕ, ◌+◌, ◌*◌, ◌<◌, ◌≤◌, ◌≡◌, ◌^◌, length, drop, All}
use cornerstone.Buffer.{ulong_bytes}
use cornerstone.Codec.Entry.{IsEntry}
use cornerstone.Log.{Log}
use cornerstone.Store.File.{file}
use cornerstone.Store.State.{Store}
use cornerstone.Store.Layout.{images, offsets}

-- The positions of the three files, which every operation moves.
pub record Places : Type 0 where
  pub idx : ℕ
  pub dat : ℕ
  pub sti : ℕ

-- The store that keeps a log, with the entries from number `k` on in its buffer of `n` entries.
abbrev pub shape : Log → ℕ → ℕ → Places → Store
shape l k n at = record {
  idx_file = file (offsets 0 l.entries) at.idx;
  data_file = file (images l.entries) at.dat;
  start_idx_file = file (ulong_bytes l.start) at.sti;
  entries_in_store = length l.entries;
  start_idx = l.start;
  buf = record { start_idx = l.start + k; entries = drop k l.entries; max_size = n };
  buf_size = n;
}

-- The bounds: entries that can be written, indexes that fit an ulong, files that fit an int, and a buffer
-- that holds the last entries, the last one at least.
pub record IsKept (l : Log) (k n : ℕ) : Type 0 where
  pub entries : All IsEntry l.entries
  pub slots : l.start + length l.entries < 2 ^ 64
  pub offsets : 8 * length l.entries < 2 ^ 31
  pub bytes : length (images l.entries) < 2 ^ 31
  pub first : k ≤ length l.entries
  pub last : 0 < length l.entries → k < length l.entries
  pub window : length l.entries ≤ n + k
  pub size : 0 < n
  pub max : n < 2 ^ 31

-- The store keeps the log.
pub record Keeps (s : Store) (l : Log) : Type 0 where
  pub first : ℕ
  pub size : ℕ
  pub places : Places
  pub same : s ≡ shape l first size places
  pub kept : IsKept l first size
