-- ===== src/Store/Writes.antt =====
-- fs_log_store.cxx: what a write leaves of a file.
use cornerstone.Common.{
  true, ℕ, zero, suc, ◌+◌, ◌-◌, ◌≡◌, refl, sym, ap, ◌∙◌, List, [], ◌∷◌, ◌++◌, length, drop, arith,
  append-nil, replicate, append_assoc, take-append,
}
use cornerstone.Buffer.{
  err, io_failure, Buffer, ok, sz_ulong, ulong_bytes, alloc, put_ulong, set_pos, data_of, put_bytes,
  avail, size, overwrite, move_forward,
}
use cornerstone.Buffer.Laws.{length-ulong_bytes, cursor, set_pos_zero}
use cornerstone.Store.File
use cornerstone.Store.File.{File, file}
use cornerstone.Store.State.{Store, Which, file_of, set_file, write_ulong, write_buffer, idx}

drop-part : (us vs : List ℕ) (n : ℕ) → drop (length us + n) (us ++ vs) ≡ drop n vs
drop-part [] vs n = ap (λ m. drop m vs) (omega arith)
drop-part (u ∷ us) vs n =
    ap (λ m. drop m (u ∷ (us ++ vs)))
      (let e : length (u ∷ us) + n ≡ suc (length us + n) = omega arith in e)
    ∙ drop-part us vs n

-- A write at a place in a file takes the place of as many bytes as it has.
pub splice-part :
    (old us vs xs : List ℕ)
    → old ≡ us ++ vs
    → File.splice old (length us) xs ≡ us ++ (xs ++ drop (length xs) vs)
unfolding File.splice
splice-part old us vs [] e = e
splice-part old us vs (x ∷ xs) e =
    rw
      (
        e,
        append_assoc us vs (replicate (length us - length (us ++ vs)) 0),
        take-append us (vs ++ replicate (length us - length (us ++ vs)) 0),
        drop-part us vs (suc (length xs)),
      )
      refl

splice-end : (old xs : List ℕ) → File.splice old (length old) xs ≡ old ++ xs
splice-end old xs =
    splice-part old old [] xs (sym (append-nil old))
    ∙ ap (◌++◌ old) (ap (◌++◌ xs) (drop-nil (length xs)) ∙ append-nil xs)
  where
    drop-nil : (n : ℕ) → drop {A = ℕ} n [] ≡ []
    drop-nil zero = refl
    drop-nil (suc n) = refl

-- A number in a buffer of its own.
module _ (v : ℕ) where
  abbrev full : Buffer
  full = record { bytes = ulong_bytes v; pos = 8 }

  pub alloc_eight : alloc sz_ulong ≡ ok (cursor [] (replicate 8 0))
  unfolding alloc
  alloc_eight = refl

  pub put_eight : put_ulong (cursor [] (replicate 8 0)) v ≡ ok full
  unfolding put_ulong put_bytes avail size overwrite move_forward ulong_bytes
  put_eight = refl

  pub rewind_eight : set_pos full 0 ≡ cursor [] (ulong_bytes v)
  rewind_eight = set_pos_zero full

module _ (w : Which) (s : Store) (bytes : List ℕ) (p : ℕ) (h : file_of w s ≡ file bytes p)
    (e : p ≡ length bytes) where
  pub write_buffer-end :
      (xs : List ℕ)
      → write_buffer w (cursor [] xs) s ≡ (ok tt, set_file w (file (bytes ++ xs) (p + length xs)) s)
  unfolding write_buffer File.put File.write data_of
  write_buffer-end xs = rw (h, e, splice-end bytes xs) refl

  pub write_ulong-end :
      (v : ℕ) → write_ulong w v s ≡ (ok tt, set_file w (file (bytes ++ ulong_bytes v) (p + 8)) s)
  unfolding write_ulong
  write_ulong-end v =
      rw
        (
          alloc_eight v,
          put_eight v,
          rewind_eight v,
          write_buffer-end (ulong_bytes v),
          length-ulong_bytes v,
        )
        refl

-- The same at a place in a file that is not its end.
module _ (w : Which) (s : Store) (bytes us vs : List ℕ) (p : ℕ) (h : file_of w s ≡ file bytes p)
    (c : bytes ≡ us ++ vs) (e : p ≡ length us) where
  pub write_buffer-part :
      (xs : List ℕ)
      → write_buffer w (cursor [] xs) s
        ≡ (ok tt, set_file w (file (us ++ (xs ++ drop (length xs) vs)) (p + length xs)) s)
  unfolding write_buffer File.put File.write data_of
  write_buffer-part xs = rw (h, e, splice-part bytes us vs xs c) refl

  pub write_ulong-part :
      (v : ℕ)
      → write_ulong w v s
        ≡ (ok tt, set_file w (file (us ++ (ulong_bytes v ++ drop 8 vs)) (p + 8)) s)
  unfolding write_ulong
  write_ulong-part v =
      rw
        (
          alloc_eight v,
          put_eight v,
          rewind_eight v,
          write_buffer-part (ulong_bytes v),
          length-ulong_bytes v,
        )
        refl

-- Cutting a file.
pub truncate-part :
    (bytes xs ys : List ℕ) (n : ℕ) → bytes ≡ xs ++ ys → n ≡ length xs → File.truncate bytes n ≡ xs
unfolding File.truncate
truncate-part bytes xs ys n c e =
    rw (c, e, append_assoc xs ys (replicate (length xs - length (xs ++ ys)) 0))
      (take-append xs (ys ++ replicate (length xs - length (xs ++ ys)) 0))

-- A stream that has failed takes nothing.
pub write_ulong-failed :
    (s : Store) (bytes : List ℕ) (p v : ℕ)
    → s.idx_file ≡ record { bytes = bytes; pos = p; is_open = true; failed = true }
    → write_ulong idx v s ≡ (err io_failure, s)
unfolding write_ulong write_buffer File.put File.write data_of
write_ulong-failed s bytes p v h = rw (alloc_eight v, put_eight v, rewind_eight v, h) refl
