-- ===== src/Store/Fill.antt =====
-- fs_log_store.cxx: fill_buffer reads the entries of the files into the buffer.
use cornerstone.Common.{
  ℕ, zero, suc, ◌+◌, ◌<◌, ◌≤◌, ◌≡◌, ◌^◌, refl, sym, ap, ◌∙◌, List, [], ◌∷◌, ◌++◌, length, arith,
  All, true, ltb, sub64, length-append, append_assoc, lt→ltb, le→ltb_false,
}
use cornerstone.Buffer.{ok, ulong_bytes, size}
use cornerstone.Buffer.Laws.{length-ulong_bytes, Fits, Fits-next, cursor, get_ulong-cursor}
use cornerstone.Codec.Entry.{LogEntry, image, IsEntry, deserialize-image}
use cornerstone.Store.File.{file}
use cornerstone.Store.Memory
use cornerstone.Store.Memory.{Memory}
use cornerstone.Store.State.{Store, ◌>>=◌, dat}
use cornerstone.Store.Bulk.{fill_loop, read_last}
use cornerstone.Store.Layout.{images, offsets, read_buffer-part}

fill_loop_end :
    (fuel : ℕ) (done : List ℕ) (p : ℕ) (s : Store) → fill_loop fuel (cursor done []) p s ≡ (ok p, s)
unfolding fill_loop size
fill_loop_end zero done p s = refl
fill_loop_end (suc fuel) done p s =
    rw
      (le→ltb_false (length done) (length (done ++ []))
        (omega (arith, length-append {A = ℕ} done [])))
      refl

module _ (bytes : List ℕ) (a n : ℕ) (s : Store) where
  -- The store with a position in the data file and with entries in its buffer.
  abbrev filling : ℕ → List LogEntry → Store
  filling p pre = record s {
    data_file = file bytes p;
    buf = record { start_idx = a; entries = pre; max_size = n };
  }

  append-room :
      (pre : List LogEntry) (e : LogEntry)
      → length pre < n
      → Memory.append (record { start_idx = a; entries = pre; max_size = n }) e
        ≡ record { start_idx = a; entries = pre ++ (e ∷ []); max_size = n }
  unfolding Memory.append Memory.evict
  append-room pre e h =
      rw (le→ltb_false n (length (pre ++ (e ∷ []))) (omega (arith, h, length-append pre (e ∷ []))))
        refl

  read_last-part :
      (xs : List ℕ) (p : ℕ) (e : LogEntry) (pre : List LogEntry)
      → bytes ≡ xs ++ (image e ++ [])
      → p ≡ length xs
      → length bytes < 2 ^ 31
      → IsEntry e
      → length pre < n
      → read_last (length bytes) p (filling p pre)
        ≡ (ok tt, filling (length bytes) (pre ++ (e ∷ [])))
  unfolding read_last
  read_last-part xs p e pre c eq b v r =
      rw
        (
          rest,
          read_buffer-part dat (filling p pre) bytes p refl xs (image e) [] (length (image e)) c eq
              refl (omega (arith, b, total)),
          deserialize-image [] e v (omega (arith, b, total)),
          append-room pre e r,
          end,
        )
        refl
    where
      total : length bytes ≡ length xs + length (image e)
      total =
          omega (arith, ap length c, length-append xs (image e ++ []), length-append (image e) [])

      rest : sub64 (length bytes) p ≡ length (image e)
      rest = ground (arith, total, eq, b)

      end : p + length (image e) ≡ length bytes
      end = omega (arith, total, eq)

  module _ (xs : List ℕ) (p : ℕ) (e : LogEntry) (zs : List ℕ)
      (c : bytes ≡ xs ++ (image e ++ zs)) where
    past : length bytes ≡ length xs + length (image e) + length zs
    past = omega (arith, ap length c, length-append xs (image e ++ zs), length-append (image e) zs)

  fill_loop-next :
      (fuel : ℕ) (done xs zs : List ℕ) (p : ℕ) (e g : LogEntry) (vs pre : List LogEntry)
      → bytes ≡ xs ++ (image e ++ zs)
      → p ≡ length xs
      → length bytes < 2 ^ 31
      → IsEntry e
      → length pre < n
      → Fits (length done + length (offsets (p + length (image e)) (g ∷ vs)))
      → fill_loop
          (suc fuel)
          (cursor done (offsets (p + length (image e)) (g ∷ vs)))
          p
          (filling p pre)
        ≡ fill_loop fuel
            (cursor
              (done ++ ulong_bytes (p + length (image e)))
              (offsets (p + length (image e) + length (image g)) vs))
            (p + length (image e))
            (filling (p + length (image e)) (pre ++ (e ∷ [])))
  unfolding fill_loop size offsets
  fill_loop-next fuel done xs zs p e g vs pre c eq b v r t =
      rw
        (
          more,
          get_ulong-cursor done rest q (omega (arith, past xs p e zs c, eq, b)) t,
          inside,
          read_buffer-part dat (filling p pre) bytes p refl xs (image e) zs (length (image e)) c eq
              refl (omega (arith, b, past xs p e zs c)),
          deserialize-image [] e v (omega (arith, b, past xs p e zs c)),
          append-room pre e r,
        )
        refl
    where
      q : ℕ
      q = p + length (image e)

      rest : List ℕ
      rest = offsets (q + length (image g)) vs

      more : ltb (length done) (length (done ++ (ulong_bytes q ++ rest))) ≡ true
      more = lt→ltb _ _ (
          omega (
            arith,
            length-append done (ulong_bytes q ++ rest),
            length-append (ulong_bytes q) rest,
            length-ulong_bytes q,
          ))

      inside : sub64 (p + length (image e)) p ≡ length (image e)
      inside = ground (arith, past xs p e zs c, eq, b)

  -- The entries from one on, by the offsets behind it.
  pub fill_lem :
      (fuel : ℕ) (done xs : List ℕ) (p : ℕ) (e : LogEntry) (vs pre : List LogEntry)
      → bytes ≡ xs ++ (image e ++ images vs)
      → p ≡ length xs
      → length bytes < 2 ^ 31
      → All IsEntry (e ∷ vs)
      → length pre + suc (length vs) ≤ n
      → length vs ≤ fuel
      → Fits (length done + length (offsets (p + length (image e)) vs))
      → (fill_loop fuel (cursor done (offsets (p + length (image e)) vs)) p
            >>= read_last (length bytes))
          (filling p pre)
        ≡ (ok tt, filling (length bytes) (pre ++ (e ∷ vs)))
  unfolding offsets images
  fill_lem fuel done xs p e [] pre c eq b (v, _) r f t =
      rw (fill_loop_end fuel done p (filling p pre))
        (read_last-part xs p e pre c eq b v (omega (arith, r)))
  fill_lem zero done xs p e (g ∷ vs) pre c eq b v r f t = absurd (omega (arith, f))
  fill_lem (suc fuel) done xs p e (g ∷ vs) pre c eq b (v, vv) r f t =
      rw (fill_loop-next fuel done xs (images (g ∷ vs)) p e g vs pre c eq b v (omega (arith, r)) t)
        (fill_lem fuel (done ++ ulong_bytes (p + length (image e))) (xs ++ image e)
            (p + length (image e)) g vs (pre ++ (e ∷ []))
            (c ∙ sym (append_assoc xs (image e) (images (g ∷ vs))))
            (omega (arith, eq, length-append xs (image e))) b vv
            (omega (arith, r, length-append pre (e ∷ []))) (omega (arith, f))
            (Fits-next done (ulong_bytes (p + length (image e)))
              (offsets (p + length (image e) + length (image g)) vs) t)
          ∙ ap (λ es. (ok tt, filling (length bytes) es)) (append_assoc pre (e ∷ []) (g ∷ vs)))
