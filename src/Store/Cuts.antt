-- ===== src/Store/Cuts.antt =====
-- fs_log_store.cxx: how write_at cuts the files and the buffer.
use cornerstone.Common.{
  ℕ, zero, suc, ◌+◌, ◌-◌, ◌*◌, ◌<◌, ◌≤◌, ◌≡◌, ◌^◌, refl, sym, ap, ◌∙◌, List, [], ◌∷◌, ◌++◌, length,
  take, drop, arith, true, append-nil, ltb, sub64, length-append, length-drop, append_assoc,
  take-append, lt→ltb, le→ltb_false,
}
use cornerstone.Buffer.{ok, ulong_bytes}
use cornerstone.Buffer.Laws.{length-ulong_bytes}
use cornerstone.Codec.Entry.{LogEntry, image}
use cornerstone.Log.{Log}
use cornerstone.Store.File
use cornerstone.Store.File.{File, file}
use cornerstone.Store.Memory
use cornerstone.Store.Memory.{Memory}
use cornerstone.Store.State.{Store, truncate_file}
use cornerstone.Store.Ops.{cut_files}
use cornerstone.Store.Layout.{images, offsets, length-offsets}
use cornerstone.Store.Shape.{Places, shape}
use cornerstone.Store.Writes.{truncate-part}

take-drop :
    (k : ℕ) (us vs : List LogEntry)
    → k ≤ length us
    → take (length us - k) (drop k (us ++ vs)) ≡ drop k us
take-drop zero us vs h =
    ap (λ m. take m (us ++ vs)) (let q : length us - 0 ≡ length us = omega arith in q)
    ∙ take-append us vs
take-drop (suc k) [] vs h = absurd (omega (arith, h))
take-drop (suc k) (u ∷ us) vs h =
    ap (λ m. take m (drop k (us ++ vs)))
      (let q : suc (length us) - suc k ≡ length us - k = omega arith in q)
    ∙ take-drop k us vs (omega (arith, h))

module _ (start : ℕ) (us : List LogEntry) (o : LogEntry) (vs : List LogEntry) (k n : ℕ)
    (at : Places) (e : LogEntry) where
  abbrev l : Log
  l = record { start = start; entries = us ++ (o ∷ vs) }

  abbrev p : ℕ
  p = length (images us)

  pub counted : length l.entries ≡ length us + 1 + length vs
  counted = omega (arith, length-append us (o ∷ vs))

  abbrev kept : List LogEntry → Memory
  kept xs = record { start_idx = start + k; entries = drop k xs; max_size = n }

  -- The entries from the place on leave the buffer.
  pub trim-memory :
      k ≤ length us
      → start + length us < 2 ^ 64
      → Memory.trim (kept (us ++ (o ∷ vs))) (start + length us) ≡ kept us
  unfolding Memory.trim
  trim-memory h b =
      rw
        (
          le→ltb_false (start + length us) (start + k) (omega (arith, h)),
          number,
          inside,
          take-drop k us (o ∷ vs) h,
        )
        refl
    where
      number : sub64 (start + length us) (start + k) ≡ length us - k
      number = ground (arith, h, b)

      inside : ltb (length us - k) (length (drop k (us ++ (o ∷ vs)))) ≡ true
      inside = ground (arith, h, counted, length-drop k (us ++ (o ∷ vs)))

  -- The files when the entry is written.
  abbrev pub new_offsets : List ℕ
  new_offsets = offsets 0 us ++ (ulong_bytes p ++ offsets (p + length (image o)) vs)

  abbrev pub new_images : List ℕ
  new_images = images us ++ (image e ++ drop (length (image e)) (image o ++ images vs))

  abbrev pub written : Store
  written = record (shape l k n at) {
    idx_file = file new_offsets (8 * length us + 8);
    data_file = file new_images (p + length (image e));
  }

  -- The files when they are cut.
  abbrev pub trimmed : Store
  trimmed = record (shape l k n at) {
    idx_file = file (offsets 0 us ++ ulong_bytes p) (8 * length us + 8);
    data_file = file (images us ++ image e) (p + length (image e));
  }

  index_length : length (offsets 0 us ++ ulong_bytes p) ≡ 8 * length us + 8
  index_length = omega (
    arith,
    length-append (offsets 0 us) (ulong_bytes p),
    length-offsets 0 us,
    length-ulong_bytes p,
  )

  new_length : length new_offsets ≡ 8 * length us + 8 + 8 * length vs
  new_length = omega (
    arith,
    length-append (offsets 0 us) (ulong_bytes p ++ offsets (p + length (image o)) vs),
    length-append (ulong_bytes p) (offsets (p + length (image o)) vs),
    length-offsets 0 us,
    length-ulong_bytes p,
    length-offsets (p + length (image o)) vs,
  )

  -- Entries that were behind the place are cut off.
  cut_files-shorter :
      0 < length vs
      → cut_files (8 * length us + 8) (p + length (image e)) written ≡ (ok tt, trimmed)
  unfolding cut_files truncate_file File.seek_end File.seek File.tell File.open_ate
  cut_files-shorter h =
      rw
        (
          lt→ltb (8 * length us + 8) (length new_offsets) (omega (arith, new_length, h)),
          truncate-part new_offsets (offsets 0 us ++ ulong_bytes p)
              (offsets (p + length (image o)) vs) (8 * length us + 8)
              (sym
                (append_assoc (offsets 0 us) (ulong_bytes p) (offsets (p + length (image o)) vs)))
              (sym index_length),
          truncate-part new_images (images us ++ image e)
              (drop (length (image e)) (image o ++ images vs)) (p + length (image e))
              (sym (
                append_assoc (images us) (image e)
                  (drop (length (image e)) (image o ++ images vs))))
              (sym (length-append (images us) (image e))),
          index_length,
          length-append (images us) (image e),
        )
        refl

drop-all : (xs : List ℕ) (n : ℕ) → length xs ≤ n → drop n xs ≡ []
drop-all [] zero h = refl
drop-all [] (suc n) h = refl
drop-all (x ∷ xs) zero h = absurd (omega (arith, h))
drop-all (x ∷ xs) (suc n) h = drop-all xs n (omega (arith, h))

module _ (start : ℕ) (us : List LogEntry) (o : LogEntry) (k n : ℕ) (at : Places)
    (e : LogEntry) where
  -- With no entry behind it there is nothing to cut, where the new entry is long enough.
  cut_files-last :
      length (image o) ≤ length (image e)
      → cut_files
          (8 * length us + 8)
          (length (images us) + length (image e))
          (written start us o [] k n at e)
        ≡ (
          ok tt,
          record (shape (record { start = start; entries = us ++ (o ∷ []) }) k n at) {
            idx_file = file (offsets 0 us ++ ulong_bytes (length (images us))) (8 * length us + 8);
            data_file = file (images us ++ image e) (length (images us) + length (image e));
          },
        )
  unfolding cut_files File.seek_end File.seek File.tell offsets images
  cut_files-last h =
      rw
        (
          append-nil (ulong_bytes (length (images us))),
          append-nil (image o),
          drop-all (image o) (length (image e)) h,
          append-nil (image e),
          index_length start us o [] k n at e,
          le→ltb_false (8 * length us + 8) (8 * length us + 8) (omega arith),
        )
        refl

pub cut_files_lem :
    (start : ℕ) (us : List LogEntry) (o : LogEntry) (vs : List LogEntry) (k n : ℕ) (at : Places)
    (e : LogEntry)
    → (length vs ≡ 0 → length (image o) ≤ length (image e))
    → cut_files
        (8 * length us + 8)
        (length (images us) + length (image e))
        (written start us o vs k n at e)
      ≡ (ok tt, trimmed start us o vs k n at e)
cut_files_lem start us o [] k n at e h = cut_files-last start us o k n at e (h refl)
cut_files_lem start us o (g ∷ vs) k n at e h =
    cut_files-shorter start us o (g ∷ vs) k n at e (omega arith)
