-- ===== src/Store/Clears.antt =====
-- fs_log_store.cxx: compact drops the entries in front, and keeps those behind.
use cornerstone.Common.{
  ℕ, ◌+◌, ◌-◌, ◌*◌, ◌/◌, ◌<◌, ◌≤◌, ◌≡◌, ◌^◌, refl, sym, ap, ◌∙◌, List, [], ◌∷◌, ◌++◌, length, drop,
  arith, ltb, sub64, add64, length-append, if◌then◌else◌,
}
use cornerstone.Buffer.{ok, ulong_bytes, sz_ulong}
use cornerstone.Codec.Entry.{LogEntry, image, length-image, IsEntry}
use cornerstone.Log.{Log}
use cornerstone.Store.File
use cornerstone.Store.File.{File, file}
use cornerstone.Store.Memory
use cornerstone.Store.State.{Store, idx, sti, write_ulong, mul64, truncate_file}
use cornerstone.Store.Bulk.{refill, buffer_start}
use cornerstone.Store.Compact.{clear_all, clear_front}
use cornerstone.Store.Layout.{
  images, offsets, length-offsets, offsets-split, offsets-append, images-append, read_ulong-part,
  All-append,
}
use cornerstone.Store.Shape.{Places, shape, IsKept}
use cornerstone.Store.Writes.{write_ulong-part, truncate-part}
use cornerstone.Store.Shifts.{copy_rest-part, move_offsets-lem}
use cornerstone.Store.Refill.{fill_buffer-emptied}

-- The start index is written over the old one.
pub write_start :
    (s : Store) (old v : ℕ)
    → s.start_idx_file ≡ file (ulong_bytes old) 0
    → write_ulong sti v s ≡ (ok tt, record s { start_idx_file = file (ulong_bytes v) 8 })
unfolding ulong_bytes
write_start s old v h =
    write_ulong-part sti s (ulong_bytes old) [] (ulong_bytes old) 0 h refl refl v

pub clear_all-shape :
    (l : Log) (k n : ℕ) (at : Places) (last : ℕ)
    → last + 1 < 2 ^ 64
    → clear_all last (shape l k n at) ≡ (
      ok tt,
      shape (record { start = last + 1; entries = [] }) 0 n (record { idx = 0; dat = 0; sti = 8 }),
    )
unfolding clear_all File.open_ate File.seek Memory.reset offsets images
clear_all-shape l k n at last h =
    rw
      (
        write_start
            (record (shape l k n at) {
              idx_file = file [] 0;
              data_file = file [] 0;
              start_idx_file = file (ulong_bytes l.start) 0;
            })
            l.start (add64 last 1) refl,
        number,
        first,
      )
      refl
  where
    number : add64 last 1 ≡ last + 1
    number = omega (arith, h)

    first : last + 1 + 0 ≡ last + 1
    first = omega arith

module _ (start : ℕ) (us : List LogEntry) (e : LogEntry) (vs : List LogEntry) (k n : ℕ)
    (at : Places) (last : ℕ) (h : IsKept (record { start = start; entries = us ++ (e ∷ vs) }) k n)
    (q : last + 1 ≡ start + length us) where
  abbrev l : Log
  l = record { start = start; entries = us ++ (e ∷ vs) }

  abbrev p : ℕ
  p = length (images us)

  abbrev left : Log
  left = record { start = last + 1; entries = e ∷ vs }

  abbrev pub begin : ℕ
  begin = if ltb n (length (e ∷ vs)) then length (e ∷ vs) - n else 0

  pub nonempty : 0 < length (images (e ∷ vs))
  unfolding images
  nonempty = omega (arith, length-append (image e) (images vs), length-image e)

  pub total : length (images l.entries) ≡ p + length (images (e ∷ vs))
  total =
      omega
        (arith, ap length (images-append us (e ∷ vs)), length-append (images us) (images (e ∷ vs)))

  counted : length l.entries ≡ length us + 1 + length vs
  counted = omega (arith, length-append us (e ∷ vs))

  pub left-IsKept : last + 1 < 2 ^ 64 → IsKept left begin n
  left-IsKept b = record {
    entries = (All-append IsEntry us (e ∷ vs) h.entries).1;
    slots = omega (arith, h.slots, counted, q);
    offsets = omega (arith, h.offsets, counted);
    bytes = omega (arith, h.bytes, total);
    first = ground arith;
    last = λ _. ground (arith, h.size);
    window = ground arith;
    size = h.size;
    max = h.max;
  }

  abbrev copied : List ℕ
  copied = images (e ∷ vs) ++ drop (length (images (e ∷ vs))) (images l.entries)

  abbrev cut : Store
  cut = record (shape l k n at) { data_file = file (images (e ∷ vs)) (length (images (e ∷ vs))) }

  abbrev moved : List ℕ
  moved = offsets 0 (e ∷ vs) ++ drop (8 * length (e ∷ vs)) (offsets 0 l.entries)

  abbrev shifted : Store
  shifted = record cut {
    idx_file = file (offsets 0 (e ∷ vs)) (length (offsets 0 (e ∷ vs)));
    start_idx_file = file (ulong_bytes start) 0;
  }

  pub clear_front-shape :
      start ≤ last
      → clear_front last
          (file (offsets 0 l.entries) (length (offsets 0 l.entries)))
          (file (images l.entries) (length (images l.entries)))
          (shape l k n at)
        ≡ (
          ok tt,
          shape left begin n (record {
            idx = length (offsets 0 left.entries);
            dat = length (images left.entries);
            sti = 8;
          }),
        )
  unfolding clear_front File.seek File.seek_end File.tell File.open_ate truncate_file refill
      Memory.reset buffer_start
  clear_front-shape b =
      rw
        (
          here,
          read_ulong-part idx (shape l k n (record at { idx = length (offsets 0 us) }))
              (offsets 0 l.entries) (length (offsets 0 us)) refl (offsets 0 us)
              (offsets (p + length (image e)) vs) p (offsets-split us e vs) refl
              (omega (arith, h.bytes, total)),
          copy_rest-part (images l.entries) (images l.entries) (images us) (images (e ∷ vs))
              (images-append us (e ∷ vs)) nonempty,
          rest,
          truncate-part copied (images (e ∷ vs))
              (drop (length (images (e ∷ vs))) (images l.entries)) (length (images (e ∷ vs))) refl
              refl,
          kept,
          rounds,
          move_offsets-lem cut p (e ∷ vs) 0 (offsets 0 l.entries) (offsets 0 us) []
              (offsets 0 l.entries) behind (omega (arith, h.bytes, total)),
          truncate-part moved (offsets 0 (e ∷ vs))
              (drop (8 * length (e ∷ vs)) (offsets 0 l.entries)) (8 * length (e ∷ vs)) refl
              (sym (length-offsets 0 (e ∷ vs))),
          write_start shifted start (add64 last 1) refl,
          fewer,
          number,
          starts,
        )
        (fill_buffer-emptied left begin n
          (record { idx = length (offsets 0 (e ∷ vs)); dat = length (images (e ∷ vs)); sti = 8 })
          (left-IsKept (omega (arith, q, h.slots, counted))))
    where
      here : mul64 (add64 (sub64 last start) 1) sz_ulong ≡ length (offsets 0 us)
      here = ground (arith, q, b, h.slots, counted, h.offsets, length-offsets 0 us)

      rest : sub64 (length (images l.entries)) p ≡ length (images (e ∷ vs))
      rest = ground (arith, total, h.bytes)

      kept : sub64 (length (offsets 0 l.entries)) (length (offsets 0 us)) ≡ 8 * length (e ∷ vs)
      kept = ground (arith, length-offsets 0 l.entries, length-offsets 0 us, counted, h.offsets)

      rounds : 8 * length (e ∷ vs) / sz_ulong ≡ length (e ∷ vs)
      rounds = omega arith

      behind : offsets 0 l.entries ≡ offsets 0 us ++ offsets (p + 0) (e ∷ vs)
      behind =
          offsets-append 0 us (e ∷ vs) ∙ ap (λ r. offsets 0 us ++ offsets r (e ∷ vs)) (omega arith)

      fewer : sub64 (length l.entries) (add64 (sub64 last start) 1) ≡ length (e ∷ vs)
      fewer = ground (arith, q, b, counted, h.slots)

      number : add64 last 1 ≡ last + 1
      number = omega (arith, q, counted, h.slots)

      starts :
          (if ltb n (length (e ∷ vs))
            then sub64 (add64 (length (e ∷ vs)) (last + 1)) n
            else last + 1)
          ≡ last + 1 + begin
      starts = ground (arith, q, counted, h.slots)
