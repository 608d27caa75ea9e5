-- ===== src/Store/Queries.antt =====
-- fs_log_store.cxx: the simple queries, and a read behind the last entry.
use cornerstone.Common.{
  ℕ, zero, suc, ◌+◌, ◌*◌, ◌<◌, ◌≡◌, refl, ap, ◌∙◌, List, [], ◌∷◌, length, drop, arith, true, false,
  ltb, leb, le→ltb_false, add64, sub64, to_int32, to_ulong, length-drop, All,
}
use cornerstone.Buffer.{Result, err, io_failure, sz_ulong, alloc, avail, size}
use cornerstone.Store.Writes.{write_ulong-failed}
use cornerstone.Codec.Entry.{LogEntry}
use cornerstone.Log
use cornerstone.Log.{Log, last_of}
use cornerstone.Store.File
use cornerstone.Store.Memory
use cornerstone.Store.Memory.{last_elem}
use cornerstone.Store.State.{Store, read_ulong, read_buffer, check_files, mul64}
use cornerstone.Store.Ops
use cornerstone.Store.Ops.{or_empty, load_term}
use cornerstone.Store.Layout.{offsets, length-offsets}
use cornerstone.Store.Shape.{Places, shape, IsKept, Keeps}

or_empty-last_elem : (es : List LogEntry) → or_empty (last_elem es) ≡ last_of es
unfolding or_empty last_elem last_of
or_empty-last_elem [] = refl
or_empty-last_elem (e ∷ []) = refl
or_empty-last_elem (e ∷ f ∷ es) = or_empty-last_elem (f ∷ es)

last_of-drop :
    (k : ℕ) (es : List LogEntry)
    → (0 < length es → k < length es)
    → last_of (drop k es) ≡ last_of es
unfolding last_of
last_of-drop zero es h = refl
last_of-drop (suc k) [] h = refl
last_of-drop (suc k) (e ∷ []) h = absurd (omega (arith, h (omega arith)))
last_of-drop (suc k) (e ∷ f ∷ es) h = last_of-drop k (f ∷ es) (λ _. omega (arith, h (omega arith)))

-- A store that keeps a log tells its next slot, its start and its last entry as the log does; the last
-- entry of an empty log is the dummy.
queries-Keeps :
    (s : Store) (l : Log)
    → Keeps s l
    → (Ops.next_slot s ≡ Log.next_slot l)
      × ((Ops.start_index s ≡ Log.start_index l) × (Ops.last_entry s ≡ Log.last_entry l))
unfolding Ops.next_slot Log.next_slot Ops.start_index Log.start_index Ops.last_entry
    Memory.last_entry Log.last_entry
queries-Keeps s l h = (
  ap Ops.next_slot h.same ∙ omega (arith, h.kept.slots),
  (
    ap Ops.start_index h.same,
    ap Ops.last_entry h.same
        ∙ or_empty-last_elem (drop h.first l.entries)
        ∙ last_of-drop h.first l.entries h.kept.last,
  ),
)

-- The stream of the index file has failed.
abbrev dead : List ℕ → ℕ → File.File
dead bytes pos = record { bytes = bytes; pos = pos; is_open = true; failed = true }

append-dead :
    (e : LogEntry) (s : Store) (bytes : List ℕ) (p : ℕ)
    → Ops.append e (record s { idx_file = dead bytes p }) ≡ (
      err io_failure,
      record s { idx_file = dead bytes p; data_file = File.seek_end s.data_file },
    )
unfolding Ops.append File.seek_end File.seek
append-dead e s bytes p =
    rw
      (write_ulong-failed
        (record s { idx_file = dead bytes p; data_file = File.seek_end s.data_file }) bytes p
        (File.tell (File.seek_end s.data_file)) refl)
      refl

-- The results of appends, one after the other.
unfoldable pub appends : List LogEntry → Store → List (Result ℕ)
appends [] s = []
appends (e ∷ es) s = let (r, s') = Ops.append e s in r ∷ appends es s'

appends-dead :
    (es : List LogEntry) (s : Store) (bytes : List ℕ) (p : ℕ)
    → All (λ r. r ≡ err io_failure) (appends es (record s { idx_file = dead bytes p }))
unfolding appends
appends-dead [] s bytes p = tt
appends-dead (e ∷ es) s bytes p =
    rw (append-dead e s bytes p)
      (refl, appends-dead es (record s { data_file = File.seek_end s.data_file }) bytes p)

module _ (l : Log) (k n : ℕ) (at : Places) (h : IsKept l k n) where
  -- The stream of the index file has failed.
  abbrev broken : Store
  broken = record (shape l k n at) {
    idx_file = record {
      bytes = offsets 0 l.entries;
      pos = 8 * length l.entries;
      is_open = true;
      failed = true;
    };
  }

  term_at-broken :
      Ops.term_at (l.start + length l.entries) (shape l k n at) ≡ (err io_failure, broken)
  unfolding Ops.term_at Memory.first_idx Memory.last_idx load_term check_files File.seek read_ulong
      read_buffer File.read alloc avail size
  term_at-broken =
      rw
        (
          le→ltb_false (l.start + length l.entries) (l.start + k) (omega (arith, h.first)),
          outside,
          le→ltb_false (l.start + length l.entries) l.start (omega arith),
          here,
          short,
        )
        refl
    where
      outside :
          ltb (l.start + length l.entries) (add64 (l.start + k) (length (drop k l.entries))) ≡ false
      outside = ground (arith, h.slots, h.first, length-drop k l.entries)

      here :
          mul64 (to_ulong (to_int32 (sub64 (l.start + length l.entries) l.start))) sz_ulong
          ≡ 8 * length l.entries
      here = ground (arith, h.slots, h.offsets)

      short : leb (8 * length l.entries + 8) (length (offsets 0 l.entries)) ≡ false
      short = ground (arith, length-offsets 0 l.entries)

-- Asking a store that keeps a log for the term at its next slot, where its buffer does not have it,
-- throws, and so does each of the appends that follow it, however many there are: the stream of the index
-- file has failed, and no append makes it good again.
pub term_at-append_failed :
    (s : Store) (l : Log) (es : List LogEntry)
    → Keeps s l
    → ((Ops.term_at (Log.next_slot l) s).0 ≡ err io_failure)
      × All (λ r. r ≡ err io_failure) (appends es (Ops.term_at (Log.next_slot l) s).1)
unfolding Log.next_slot
term_at-append_failed s l es h =
    let r = term_at-broken l h.first h.size h.places h.kept in
    let q = ap (Ops.term_at (l.start + length l.entries)) h.same ∙ r in
    (
      ap (λ x. x.0) q,
      rw q (
          appends-dead es (shape l h.first h.size h.places) (offsets 0 l.entries)
            (8 * length l.entries)),
    )
