-- ===== src/Buffer/Gets.antt =====
-- buffer.cxx: the get of a buffer, where the bytes are there.
use cornerstone.Common.{
  ℕ, ◌+◌, ◌≤◌, ◌≡◌, refl, ap, ◌∙◌, List, [], ◌++◌, length, replicate, leb, true, ◌-◌, arith,
  drop-replicate, append-nil, append_assoc, length-append, length-replicate, take-append,
}
use cornerstone.Buffer.{avail, get_buffer, overwrite}
use cornerstone.Buffer.Laws.{
  cursor, Fits, avail-cursor, data_of-cursor, overwrite-append, move_forward-cursor,
}

le→leb : (a b : ℕ) → a ≤ b → leb a b ≡ true
le→leb a b h = ground (arith, h)

none_left : (n : ℕ) → n - n ≡ 0
none_left n = omega arith

overwrite-zeros : (xs : List ℕ) → overwrite (replicate (length xs) 0) 0 xs ≡ xs
overwrite-zeros xs =
    overwrite-append [] (replicate (length xs) 0) xs
      (omega (arith, length-replicate {A = ℕ} (length xs) 0))
    ∙ ap (◌++◌ xs)
        (drop-replicate (length xs) (length xs) 0 ∙ ap (λ k. replicate k 0) (none_left (length xs)))
    ∙ append-nil xs

-- A new buffer is filled with the bytes in front, whatever stands behind the block.
pub get_buffer-cursor :
    (behind done xs rest : List ℕ)
    → Fits (length done + length (xs ++ rest))
    → get_buffer behind (cursor done (xs ++ rest)) (cursor [] (replicate (length xs) 0))
      ≡ (cursor [] xs, cursor (done ++ xs) rest)
unfolding get_buffer
get_buffer-cursor behind done xs rest h =
    rw
      (
        room,
        data_of-cursor done (xs ++ rest),
        append_assoc xs rest behind,
        take-append xs (rest ++ behind),
        overwrite-zeros xs,
        move_forward-cursor done xs rest (length xs) refl h,
      )
      refl
  where
    room : avail (cursor [] (replicate (length xs) 0)) ≡ length xs
    room =
        avail-cursor [] (replicate (length xs) 0)
          (omega (arith, h, length-append xs rest, length-replicate {A = ℕ} (length xs) 0))
        ∙ length-replicate (length xs) 0
