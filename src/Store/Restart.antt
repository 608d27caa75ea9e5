-- ===== src/Store/Restart.antt =====
-- fs_log_store.cxx: a store that is opened on the files of another one.
use cornerstone.Common.{
  ℕ, ◌+◌, ◌-◌, ◌/◌, ◌<◌, ◌≡◌, ◌^◌, refl, sym, ap, ◌∙◌, [], length, arith, append-nil, ltb, sub64,
  add64, if◌then◌else◌, lt→ltb, some,
}
use cornerstone.Buffer.{ok, ulong_bytes, sz_ulong}
use cornerstone.Buffer.Laws.{length-ulong_bytes}
use cornerstone.Log.{Log}
use cornerstone.Store.File
use cornerstone.Store.File.{File, file}
use cornerstone.Store.Memory
use cornerstone.Store.Memory.{Memory}
use cornerstone.Store.State.{Store, sti}
use cornerstone.Store.Bulk.{Disk, blank, load_start, start_store, open_store, buffer_start, close}
use cornerstone.Store.Layout.{images, offsets, length-offsets, read_ulong-part}
use cornerstone.Store.Shape.{Places, shape, IsKept, Keeps}
use cornerstone.Store.Refill.{fill_buffer-emptied}

-- The files of a store.
unfoldable pub disk_of : Store → Disk
disk_of s = record {
  idx_bytes = some s.idx_file.bytes;
  data_bytes = some s.data_file.bytes;
  start_idx_bytes = some s.start_idx_file.bytes;
}

module _ (l : Log) (k n m : ℕ) (h : IsKept l k n) where
  -- Where the buffer of the new store begins.
  abbrev opened : ℕ
  opened = if ltb m (length l.entries) then length l.entries - m else 0

  opened-IsKept : 0 < m → m < 2 ^ 31 → IsKept l opened m
  opened-IsKept a b = record {
    entries = h.entries;
    slots = h.slots;
    offsets = h.offsets;
    bytes = h.bytes;
    first = ground (arith, a);
    last = λ c. ground (arith, a, c);
    window = ground arith;
    size = a;
    max = b;
  }

  abbrev disk : Disk
  disk = record {
    idx_bytes = some (offsets 0 l.entries);
    data_bytes = some (images l.entries);
    start_idx_bytes = some (ulong_bytes l.start);
  }

  abbrev loaded : Places
  loaded = record { idx = length (offsets 0 l.entries); dat = length (images l.entries); sti = 8 }

  abbrev first_state : Store
  first_state = record {
    idx_file = file (offsets 0 l.entries) (length (offsets 0 l.entries));
    data_file = file (images l.entries) (length (images l.entries));
    start_idx_file = file (ulong_bytes l.start) 0;
    entries_in_store = 0;
    start_idx = 1;
    buf = record { start_idx = 1; entries = []; max_size = 0 };
    buf_size = m;
  }

  open_store-shape : 0 < m → m < 2 ^ 31 → open_store disk m ≡ (ok tt, shape l opened m loaded)
  unfolding open_store start_store blank File.open_or_create File.open_ate load_start File.tell
      File.seek Memory.new buffer_start
  open_store-shape a b =
      rw
        (
          lt→ltb m (2 ^ 31) b,
          length-ulong_bytes l.start,
          read_ulong-part sti first_state (ulong_bytes l.start) 0 refl [] [] l.start
              (sym (append-nil (ulong_bytes l.start))) refl (omega (arith, h.slots)),
          entries,
          begin,
        )
        (fill_buffer-emptied l opened m loaded (opened-IsKept a b))
    where
      entries : length (offsets 0 l.entries) / sz_ulong ≡ length l.entries
      entries = omega (arith, length-offsets 0 l.entries)

      begin :
          (if ltb m (length l.entries) then sub64 (add64 (length l.entries) l.start) m else l.start)
          ≡ l.start + opened
      begin = ground (arith, h.slots)

-- A store that is opened on the files of a closed store that kept a log keeps the log, with any size of
-- the buffer that is positive and an int.
pub open_store-close :
    (s : Store) (l : Log) (m : ℕ)
    → Keeps s l
    → 0 < m
    → m < 2 ^ 31
    → ((open_store (disk_of (close s)) m).0 ≡ ok tt) × Keeps (open_store (disk_of (close s)) m).1 l
unfolding disk_of close File.close
open_store-close s l m h a b =
    let r = open_store-shape l h.first h.size m h.kept a b in
    let q : disk_of (close s) ≡ disk l h.first h.size m h.kept =
      ap (λ x. disk_of (close x)) h.same in
    (
      ap (λ d. (open_store d m).0) q ∙ ap (λ x. x.0) r,
      record {
        first = opened l h.first h.size m h.kept;
        size = m;
        places = loaded l h.first h.size m h.kept;
        same = ap (λ d. (open_store d m).1) q ∙ ap (λ x. x.1) r;
        kept = opened-IsKept l h.first h.size m h.kept a b;
      },
    )
