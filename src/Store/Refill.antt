-- ===== src/Store/Refill.antt =====
-- fs_log_store.cxx: fill_buffer on a store with an empty buffer.
use cornerstone.Common.{
  ℕ, ◌+◌, ◌*◌, ◌≤◌, ◌≡◌, ◌^◌, refl, sym, ap, ◌∙◌, List, [], ◌∷◌, ◌++◌, length, arith, true,
  append-nil, ltb, sub64, length-append, lt→ltb, drop-append, subst,
}
use cornerstone.Buffer.{ok, ulong_bytes, size, sz_ulong}
use cornerstone.Buffer.Laws.{length-ulong_bytes, cursor, get_ulong-cursor}
use cornerstone.Codec.Entry.{LogEntry, image, IsEntry}
use cornerstone.Log.{Log}
use cornerstone.Store.File
use cornerstone.Store.File.{File, file}
use cornerstone.Store.Memory
use cornerstone.Store.Memory.{Memory}
use cornerstone.Store.State.{Store, idx, mul64}
use cornerstone.Store.Bulk.{read_tail, fill_buffer}
use cornerstone.Store.Layout.{
  part, images, offsets, length-offsets, read_buffer-part, offsets-split, images-split, All-append,
}
use cornerstone.Store.Shape.{Places, shape, IsKept}
use cornerstone.Store.Fill.{fill_lem}

-- A store whose buffer is empty as yet.
abbrev pub emptied : Log → ℕ → ℕ → Places → Store
emptied l k n at = record (shape l k n at) {
  buf = record { start_idx = l.start + k; entries = []; max_size = n };
}

module _ (start : ℕ) (us : List LogEntry) (e : LogEntry) (vs : List LogEntry) (n : ℕ)
    (at : Places) where
  abbrev l : Log
  l = record { start = start; entries = us ++ (e ∷ vs) }

  abbrev p : ℕ
  p = length (images us)

  abbrev tail : List ℕ
  tail = ulong_bytes p ++ offsets (p + length (image e)) vs

  counted : length l.entries ≡ length us + 1 + length vs
  counted = omega (arith, length-append us (e ∷ vs))

  tail_size : length tail ≡ 8 + 8 * length vs
  tail_size = omega (
    arith,
    length-append (ulong_bytes p) (offsets (p + length (image e)) vs),
    length-ulong_bytes p,
    length-offsets (p + length (image e)) vs,
  )

  tail_block : size (cursor (ulong_bytes p) (offsets (p + length (image e)) vs)) ≡ length tail
  unfolding size
  tail_block = refl

  ends : p + length (image e) ≤ length (images l.entries)
  ends = omega (
    arith,
    ap length (images-split us e vs),
    length-append (images us) (image e ++ images vs),
    length-append (image e) (images vs),
  )

  read_tail-shape :
      IsKept l (length us) n
      → read_tail
          (length (offsets 0 l.entries))
          (length (images l.entries))
          (emptied l (length us) n at)
        ≡ (
          ok tt,
          shape l (length us) n (record {
            idx = length (offsets 0 l.entries);
            dat = length (images l.entries);
            sti = at.sti;
          }),
        )
  unfolding read_tail File.seek Memory.first_idx
  read_tail-shape h =
      rw
        (
          here,
          left,
          read_buffer-part idx (emptied l (length us) n (record at { idx = 8 * length us }))
              (offsets 0 l.entries) (8 * length us) refl (offsets 0 us) tail [] (length tail)
              (offsets-split us e vs ∙ ap (◌++◌ (offsets 0 us)) (sym (append-nil tail)))
              (sym (length-offsets 0 us)) refl (omega (arith, tail_size, counted, h.offsets)),
          get_ulong-cursor [] (offsets (p + length (image e)) vs) p (omega (arith, ends, h.bytes))
              (omega (arith, tail_size, counted, h.offsets)),
          end,
          drop-append us (e ∷ vs),
        )
        (fill_lem (images l.entries) (start + length us) n
          (emptied l (length us) n
            (record { idx = length (offsets 0 l.entries); dat = p; sti = at.sti }))
          (size (cursor (ulong_bytes p) (offsets (p + length (image e)) vs))) (ulong_bytes p)
          (images us) p e vs [] (images-split us e vs) refl h.bytes
          (All-append IsEntry us (e ∷ vs) h.entries).1 (omega (arith, counted, h.window)) enough
          (omega (
            arith,
            tail_size,
            counted,
            h.offsets,
            length-append (ulong_bytes p) (offsets (p + length (image e)) vs),
          )))
    where
      here : mul64 (sub64 (start + length us) start) sz_ulong ≡ 8 * length us
      here = ground (arith, counted, h.slots, h.offsets)

      left : sub64 (length (offsets 0 l.entries)) (8 * length us) ≡ length tail
      left = ground (arith, length-offsets 0 l.entries, tail_size, counted, h.offsets)

      end : 8 * length us + length tail ≡ length (offsets 0 l.entries)
      end = omega (arith, length-offsets 0 l.entries, tail_size, counted)

      enough : length vs ≤ size (cursor (ulong_bytes p) (offsets (p + length (image e)) vs))
      enough = omega (arith, tail_block, tail_size)

-- What fill_buffer makes of a store with an empty buffer.
module _ (start n : ℕ) (at : Places) where
  abbrev Filled : List LogEntry → ℕ → Type 0
  Filled es k = fill_buffer (emptied (record { start = start; entries = es }) k n at) ≡ (
    ok tt,
    shape (record { start = start; entries = es }) k n
        (record { idx = length (offsets 0 es); dat = length (images es); sti = at.sti }),
  )

  fill_none : Filled [] 0
  unfolding fill_buffer File.seek_end File.seek File.tell offsets images
  fill_none = refl

  fill_some :
      (us : List LogEntry) (e : LogEntry) (vs : List LogEntry)
      → IsKept (record { start = start; entries = us ++ (e ∷ vs) }) (length us) n
      → Filled (us ++ (e ∷ vs)) (length us)
  unfolding fill_buffer File.seek_end File.seek File.tell
  fill_some us e vs h = rw (some_bytes, few_bytes) (read_tail-shape start us e vs n places h)
    where
      es : List LogEntry
      es = us ++ (e ∷ vs)

      places : Places
      places = record { idx = length (offsets 0 es); dat = length (images es); sti = at.sti }

      some_bytes : ltb 0 (length (offsets 0 (us ++ (e ∷ vs)))) ≡ true
      some_bytes =
          lt→ltb _ _ (omega (arith, length-offsets 0 (us ++ (e ∷ vs)), length-append us (e ∷ vs)))

      few_bytes : ltb (length (offsets 0 (us ++ (e ∷ vs)))) (2 ^ 63) ≡ true
      few_bytes = lt→ltb _ _ (omega (arith, length-offsets 0 (us ++ (e ∷ vs)), h.offsets))

  fill_all :
      (es : List LogEntry) (k : ℕ)
      → IsKept (record { start = start; entries = es }) k n
      → Filled es k
  fill_all [] k h = subst (Filled []) (let q : 0 ≡ k = omega (arith, h.first) in q) fill_none
  fill_all (x ∷ xs) k h =
      let r = part (x ∷ xs) k (h.last (omega arith)) in
      subst (λ es. IsKept (record { start = start; entries = es }) k n → Filled es k) (sym r.same)
        (subst
          (λ j.
            IsKept (record { start = start; entries = r.us ++ (r.e ∷ r.vs) }) j n
            → Filled (r.us ++ (r.e ∷ r.vs)) j)
          r.count (fill_some r.us r.e r.vs))
        h

pub fill_buffer-emptied :
    (l : Log) (k n : ℕ) (at : Places)
    → IsKept l k n
    → fill_buffer (emptied l k n at) ≡ (
      ok tt,
      shape l k n (record {
        idx = length (offsets 0 l.entries);
        dat = length (images l.entries);
        sti = at.sti;
      }),
    )
fill_buffer-emptied l k n at h = fill_all l.start n at l.entries k h
