-- ===== src/Store/Replaces.antt =====
-- fs_log_store.cxx: write_at on a store that keeps a log.
use cornerstone.Common.{
  ℕ, ◌+◌, ◌*◌, ◌<◌, ◌≤◌, ◌≡◌, ◌^◌, refl, sym, ap, List, [], ◌∷◌, ◌++◌, length, take, arith, false,
  Bool-cases, inl, inr, ltb, leb, sub64, add64, length-append, take-append, subst, le→ltb_false,
  ltb→lt, take-all,
}
use cornerstone.Buffer.{ok, sz_ulong, ulong_bytes}
use cornerstone.Buffer.Laws.{length-ulong_bytes}
use cornerstone.Codec.Entry.{LogEntry, image, IsEntry, serialize-image}
use cornerstone.Log.{Log}
use cornerstone.Store.File
use cornerstone.Store.File.{File, file}
use cornerstone.Store.State.{Store, idx, dat, check_files, mul64}
use cornerstone.Store.Ops
use cornerstone.Store.Ops.{seek_entry, cut_files, place}
use cornerstone.Store.Layout.{images, offsets, length-offsets, images-split, part}
use cornerstone.Store.Shape.{Places, shape, IsKept}
use cornerstone.Store.Writes.{write_buffer-end, write_ulong-end}
use cornerstone.Store.Appends.{append-memory, offsets_snoc, images_snoc}
use cornerstone.Store.Overwrites.{placed, write_at-part}

-- At the next slot an entry goes behind the others.
module _ (start : ℕ) (es : List LogEntry) (k n : ℕ) (at : Places) (e : LogEntry) where
  abbrev l : Log
  l = record { start = start; entries = es }

  abbrev ready : Store
  ready = shape l k n (record { idx = 8 * length es; dat = length (images es); sti = at.sti })

  abbrev half : Store
  half = record ready {
    idx_file = file (offsets 0 es ++ ulong_bytes (length (images es))) (8 * length es + 8);
  }

  abbrev whole : Store
  whole = record half {
    data_file = file (images es ++ image e) (length (images es) + length (image e));
  }

  index_length : length (offsets 0 es ++ ulong_bytes (length (images es))) ≡ 8 * length es + 8
  index_length = omega (
    arith,
    length-append (offsets 0 es) (ulong_bytes (length (images es))),
    length-offsets 0 es,
    length-ulong_bytes (length (images es)),
  )

  seek_entry-next :
      seek_entry (length es + 1) (8 * length es) (shape l k n at)
      ≡ (ok tt, shape l k n (record at { dat = length (images es) }))
  unfolding seek_entry File.seek_end File.seek
  seek_entry-next = rw (beyond) refl
    where
      beyond : leb (length es + 1) (length es) ≡ false
      beyond = ground arith

  cut_files-next :
      cut_files (8 * length es + 8) (length (images es) + length (image e)) whole ≡ (ok tt, whole)
  unfolding cut_files File.seek_end File.seek File.tell
  cut_files-next =
      rw (index_length, le→ltb_false (8 * length es + 8) (8 * length es + 8) (omega arith)) refl

  place-next :
      k ≤ length es
      → start + length es + 1 < 2 ^ 64
      → place (start + length es) (length es + 1) e whole ≡ placed start es e k n at
  unfolding place
  place-next h b =
      rw
        (
          beyond,
          append-memory k n start es e h (omega (arith, h, b)),
          offsets_snoc es e,
          images_snoc es e,
          length-append es (e ∷ []),
        )
        refl
    where
      beyond : leb (length es + 1) (length es) ≡ false
      beyond = ground arith

  write_at-next :
      IsKept l k n
      → IsEntry e
      → start + length es + 1 < 2 ^ 64
      → Ops.write_at (start + length es) e (shape l k n at) ≡ (ok tt, placed start es e k n at)
  unfolding Ops.write_at File.seek File.tell check_files
  write_at-next h v b =
      rw
        (
          le→ltb_false (start + length es) start (omega arith),
          inside,
          local,
          here,
          seek_entry-next,
          write_ulong-end idx ready (offsets 0 es) (8 * length es) refl (sym (length-offsets 0 es))
              (length (images es)),
          serialize-image e v.fits,
          write_buffer-end dat half (images es) (length (images es)) refl refl (image e),
          cut_files-next,
          place-next h.first b,
        )
        refl
    where
      inside : ltb (add64 start (length es)) (start + length es) ≡ false
      inside = ground (arith, h.slots)

      local : add64 (sub64 (start + length es) start) 1 ≡ length es + 1
      local = ground (arith, b)

      here : mul64 (sub64 (length es + 1) 1) sz_ulong ≡ 8 * length es
      here = ground (arith, h.offsets)

-- Entry number `i` is written, in the place of another or at the next slot.
module _ (k n : ℕ) (at : Places) (e : LogEntry) (v : IsEntry e) where
  abbrev pub Replaced : ℕ → Log → Type 0
  Replaced i l =
      Ops.write_at (l.start + i) e (shape l k n at)
      ≡ (ok tt, placed l.start (take i l.entries) e k n at)

  -- The new entry is as long as the last one, where it takes its place.
  abbrev pub IsLong : ℕ → Log → Type 0
  IsLong i l =
      i + 1 ≡ length l.entries
      → length (images l.entries) ≤ length (images (take i l.entries)) + length (image e)

  part-Replaced :
      (start : ℕ) (us : List LogEntry) (o : LogEntry) (vs : List LogEntry)
      → IsKept (record { start = start; entries = us ++ (o ∷ vs) }) k n
      → k ≤ length us
      → IsLong (length us) (record { start = start; entries = us ++ (o ∷ vs) })
      → Replaced (length us) (record { start = start; entries = us ++ (o ∷ vs) })
  part-Replaced start us o vs h b c =
      rw (take-append us (o ∷ vs)) (write_at-part start us o vs k n at e h v b long)
    where
      long : length vs ≡ 0 → length (image o) ≤ length (image e)
      long q = omega (
        arith,
        c (omega (arith, q, length-append us (o ∷ vs))),
        ap (λ xs. length (images xs)) (take-append us (o ∷ vs)),
        ap length (images-split us o vs),
        length-append (images us) (image o ++ images vs),
        length-append (image o) (images vs),
      )

  pub write_at-Replaced :
      (l : Log) (i : ℕ)
      → IsKept l k n
      → k ≤ i
      → i ≤ length l.entries
      → l.start + i + 1 < 2 ^ 64
      → IsLong i l
      → Replaced i l
  write_at-Replaced l i h a b c d = elim (Bool-cases (ltb i (length l.entries))) [
    | inl q ↦
        let r = part l.entries i (ltb→lt i (length l.entries) q) in
        subst
          (λ es.
            IsKept (record l { entries = es }) k n
            → IsLong i (record l { entries = es })
            → Replaced i (record l { entries = es }))
          (sym r.same)
          (subst
            (λ j.
              k ≤ j
              → IsKept (record l { entries = r.us ++ (r.e ∷ r.vs) }) k n
              → IsLong j (record l { entries = r.us ++ (r.e ∷ r.vs) })
              → Replaced j (record l { entries = r.us ++ (r.e ∷ r.vs) }))
            r.count (λ a' h' d'. part-Replaced l.start r.us r.e r.vs h' a' d') a)
          h d
    | inr q ↦
        subst (λ j. Replaced j l) (let z : length l.entries ≡ i = ground (arith, q, b) in z)
          (rw (take-all l.entries)
            (write_at-next l.start l.entries k n at e h v (ground (arith, q, b, c))))
  ]
