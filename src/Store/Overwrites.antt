-- ===== src/Store/Overwrites.antt =====
-- fs_log_store.cxx: write_at puts an entry in the place of another and drops those behind it.
use cornerstone.Common.{
  ◌∙◌, ℕ, ◌+◌, ◌*◌, ◌<◌, ◌≤◌, ◌≡◌, ◌^◌, refl, sym, ap, List, [], ◌∷◌, ◌++◌, length, drop, arith,
  true, false, ltb, leb, sub64, add64, length-append, drop-append, le→ltb_false,
}
use cornerstone.Buffer.{ok, sz_ulong, ulong_bytes}
use cornerstone.Buffer.Laws.{length-ulong_bytes}
use cornerstone.Codec.Entry.{LogEntry, image, IsEntry, serialize-image}
use cornerstone.Log.{Log}
use cornerstone.Store.File
use cornerstone.Store.File.{File, file}
use cornerstone.Store.State.{Store, idx, dat, check_files, mul64}
use cornerstone.Store.Ops
use cornerstone.Store.Ops.{seek_entry, cut_files, place}
use cornerstone.Store.Layout.{
  images, offsets, length-offsets, offsets-split, images-split, read_ulong-part,
}
use cornerstone.Store.Shape.{Places, shape, IsKept}
use cornerstone.Store.Writes.{write_buffer-part, write_ulong-part}
use cornerstone.Store.Appends.{append-memory, offsets_snoc, images_snoc, next_first}
use cornerstone.Store.Cuts.{cut_files_lem, trimmed, trim-memory, counted, new_offsets}

-- An entry is in its place: the log ends with it.
abbrev pub placed : ℕ → List LogEntry → LogEntry → ℕ → ℕ → Places → Store
placed start us e k n at =
    shape (record { start = start; entries = us ++ (e ∷ []) }) (next_first k n start us e) n
      (record {
        idx = 8 * length us + 8;
        dat = length (images us) + length (image e);
        sti = at.sti;
      })

module _ (start : ℕ) (us : List LogEntry) (o : LogEntry) (vs : List LogEntry) (k n : ℕ)
    (at : Places) (e : LogEntry) where
  abbrev l : Log
  l = record { start = start; entries = us ++ (o ∷ vs) }

  -- Both files stand where the entry is.
  abbrev ready : Store
  ready = shape l k n (record { idx = 8 * length us; dat = length (images us); sti = at.sti })

  abbrev half : Store
  half = record ready { idx_file = file (new_offsets start us o vs k n at e) (8 * length us + 8) }

  few : IsKept l k n → length (images us) < 2 ^ 31
  few h = omega (
    arith,
    h.bytes,
    ap length (images-split us o vs),
    length-append (images us) (image o ++ images vs),
  )

  seek_entry-part :
      IsKept l k n
      → seek_entry (length us + 1) (8 * length us) (shape l k n at) ≡ (
        ok tt,
        shape l k n (record { idx = 8 * length us + 8; dat = length (images us); sti = at.sti }),
      )
  unfolding seek_entry File.seek
  seek_entry-part h =
      rw
        (
          within,
          read_ulong-part idx (shape l k n (record at { idx = 8 * length us }))
              (offsets 0 l.entries) (8 * length us) refl (offsets 0 us)
              (offsets (length (images us) + length (image o)) vs) (length (images us))
              (offsets-split us o vs) (sym (length-offsets 0 us)) (omega (arith, few h)),
        )
        refl
    where
      within : leb (length us + 1) (length (us ++ (o ∷ vs))) ≡ true
      within = ground (arith, counted start us o vs k n at e)

  place-part :
      k ≤ length us
      → start + length us + 1 < 2 ^ 64
      → place (start + length us) (length us + 1) e (trimmed start us o vs k n at e)
        ≡ placed start us e k n at
  unfolding place
  place-part h b =
      rw
        (
          within,
          trim-memory start us o vs k n at e h (omega (arith, b)),
          append-memory k n start us e h (omega (arith, h, b)),
          offsets_snoc us e,
          images_snoc us e,
          length-append us (e ∷ []),
        )
        refl
    where
      within : leb (length us + 1) (length (us ++ (o ∷ vs))) ≡ true
      within = ground (arith, counted start us o vs k n at e)

  -- What the files and the buffer are given.
  pub write_at-place :
      IsKept l k n
      → IsEntry e
      → (length vs ≡ 0 → length (image o) ≤ length (image e))
      → Ops.write_at (start + length us) e (shape l k n at)
        ≡ (ok tt, place (start + length us) (length us + 1) e (trimmed start us o vs k n at e))
  unfolding Ops.write_at File.seek File.tell check_files place
  write_at-place h v c =
      rw
        (
          le→ltb_false (start + length us) start (omega arith),
          inside,
          local,
          here,
          seek_entry-part h,
          write_ulong-part idx ready (offsets 0 l.entries) (offsets 0 us)
              (ulong_bytes (length (images us))
                ++ offsets (length (images us) + length (image o)) vs)
              (8 * length us) refl (offsets-split us o vs) (sym (length-offsets 0 us))
              (length (images us)),
          skip,
          serialize-image e v.fits,
          write_buffer-part dat half (images l.entries) (images us) (image o ++ images vs)
              (length (images us)) refl (images-split us o vs) refl (image e),
          cut_files_lem start us o vs k n at e c,
        )
        refl
    where
      slots : start + length us + 1 < 2 ^ 64
      slots = omega (arith, h.slots, counted start us o vs k n at e)

      inside : ltb (add64 start (length l.entries)) (start + length us) ≡ false
      inside = ground (arith, counted start us o vs k n at e, h.slots)

      local : add64 (sub64 (start + length us) start) 1 ≡ length us + 1
      local = ground (arith, slots)

      here : mul64 (sub64 (length us + 1) 1) sz_ulong ≡ 8 * length us
      here = ground (arith, counted start us o vs k n at e, h.offsets)

      skip :
          drop 8
            (ulong_bytes (length (images us)) ++ offsets (length (images us) + length (image o)) vs)
          ≡ offsets (length (images us) + length (image o)) vs
      skip = rw (← length-ulong_bytes (length (images us))) (
          drop-append (ulong_bytes (length (images us)))
            (offsets (length (images us) + length (image o)) vs))

  pub write_at-part :
      IsKept l k n
      → IsEntry e
      → k ≤ length us
      → (length vs ≡ 0 → length (image o) ≤ length (image e))
      → Ops.write_at (start + length us) e (shape l k n at) ≡ (ok tt, placed start us e k n at)
  write_at-part h v b c =
      write_at-place h v c
      ∙ ap (λ t. (ok tt, t)) (place-part b (omega (arith, h.slots, counted start us o vs k n at e)))
