-- ===== src/Store/Shifts.antt =====
-- fs_log_store.cxx: how compact moves the offsets and the bytes of the entries that stay.
use cornerstone.Common.{
  ℕ, zero, suc, ◌+◌, ◌*◌, ◌<◌, ◌≡◌, ◌^◌, refl, sym, ap, ◌∙◌, List, [], ◌∷◌, ◌++◌, length, drop,
  arith, append-nil, sub64, length-append, append_assoc, drop-append,
}
use cornerstone.Buffer.{ok, ulong_bytes, get_ulong}
use cornerstone.Buffer.Laws.{length-ulong_bytes, cursor, get_ulong-cursor}
use cornerstone.Codec.Entry.{LogEntry, image}
use cornerstone.Store.File
use cornerstone.Store.File.{File, file}
use cornerstone.Store.State.{Store, idx}
use cornerstone.Store.Compact.{move_offsets, copy_rest, copy_bytes}
use cornerstone.Store.Layout.{images, offsets, read-part}
use cornerstone.Store.Writes.{write_ulong-part, splice-part}

pub drop-nil : (n : ℕ) → drop {A = ℕ} n [] ≡ []
drop-nil zero = refl
drop-nil (suc n) = refl

drop-drop : (a b : ℕ) (xs : List ℕ) → drop b (drop a xs) ≡ drop (a + b) xs
drop-drop zero b xs = ap (λ m. drop m xs) (omega arith)
drop-drop (suc a) b [] = drop-nil b ∙ sym (drop-nil (suc a + b))
drop-drop (suc a) b (x ∷ xs) =
    drop-drop a b xs
    ∙ ap (λ m. drop m (x ∷ xs)) (let q : suc (a + b) ≡ suc a + b = omega arith in q)

-- A copy of what is left of a file.
pub copy_rest-part :
    (out f xs ys : List ℕ)
    → f ≡ xs ++ ys
    → 0 < length ys
    → copy_rest (file out 0) (file f (length xs)) ≡ file (ys ++ drop (length ys) out) (length ys)
unfolding copy_rest copy_bytes File.write
copy_rest-part out f xs [] c h = absurd (omega (arith, h))
copy_rest-part out f xs (y ∷ ys) c h =
    rw (c, drop-append xs (y ∷ ys), splice-part out [] out (y ∷ ys) refl)
      (ap (λ m. file (y ∷ (ys ++ drop (suc (length ys)) out)) m)
        (let q : 0 + suc (length ys) ≡ suc (length ys) = omega arith in q))

module _ (s : Store) (p : ℕ) where
  -- The index file, with the offsets that were written and what is left of the old ones.
  abbrev moving : List ℕ → List ℕ → Store
  moving new old = record s { idx_file = file (new ++ old) (length new) }

  pub move_offsets-lem :
      (ws : List LogEntry) (q : ℕ) (bak xs new old : List ℕ)
      → bak ≡ xs ++ offsets (p + q) ws
      → p + q + length (images ws) < 2 ^ 31
      → move_offsets (length ws) p (file bak (length xs)) (moving new old) ≡ (
        ok (file bak (length xs + 8 * length ws)),
        moving (new ++ offsets q ws) (drop (8 * length ws) old),
      )
  unfolding move_offsets offsets images
  move_offsets-lem [] q bak xs new old c b =
      λ i. (ok (file bak (at_end i)), moving (sym (append-nil new) i) old)
    where
      at_end : length xs ≡ length xs + 8 * length {A = LogEntry} []
      at_end = omega arith
  move_offsets-lem (w ∷ ws) q bak xs new old c b =
      rw
        (
          read-part bak xs (ulong_bytes (p + q)) (offsets (p + q + length (image w)) ws) (length xs)
              8 c refl (sym (length-ulong_bytes (p + q))),
          number,
          moved,
          write_ulong-part idx (moving new old) (new ++ old) new old (length new) refl refl refl q,
        )
        ((λ i.
            move_offsets (length ws) p (file bak (read_to i))
              (record s { idx_file = file (wrote i) (wrote_to i) }))
          ∙ move_offsets-lem ws (q + length (image w)) bak (xs ++ ulong_bytes (p + q))
              (new ++ ulong_bytes q) (drop 8 old) rest (omega (arith, b, images_size))
          ∙ (λ i. (ok (file bak (ends i)), moving (news i) (olds i))))
    where
      images_size : length (image w ++ images ws) ≡ length (image w) + length (images ws)
      images_size = length-append (image w) (images ws)

      number :
          get_ulong (record { bytes = ulong_bytes (p + q); pos = 0 })
          ≡ ok (p + q, cursor (ulong_bytes (p + q)) [])
      number =
          ap (λ bs. get_ulong (record { bytes = bs; pos = 0 }))
            (sym (append-nil (ulong_bytes (p + q))))
          ∙ get_ulong-cursor [] [] (p + q) (omega (arith, b))
              (omega (arith, length-append (ulong_bytes (p + q)) [], length-ulong_bytes (p + q)))

      moved : sub64 (p + q) p ≡ q
      moved = ground (arith, b)

      read_to : length xs + 8 ≡ length (xs ++ ulong_bytes (p + q))
      read_to = omega (arith, length-append xs (ulong_bytes (p + q)), length-ulong_bytes (p + q))

      wrote : new ++ (ulong_bytes q ++ drop 8 old) ≡ (new ++ ulong_bytes q) ++ drop 8 old
      wrote = sym (append_assoc new (ulong_bytes q) (drop 8 old))

      wrote_to : length new + 8 ≡ length (new ++ ulong_bytes q)
      wrote_to = omega (arith, length-append new (ulong_bytes q), length-ulong_bytes q)

      rest : bak ≡ (xs ++ ulong_bytes (p + q)) ++ offsets (p + (q + length (image w))) ws
      rest =
          c
          ∙ sym (append_assoc xs (ulong_bytes (p + q)) (offsets (p + q + length (image w)) ws))
          ∙ ap (λ r. (xs ++ ulong_bytes (p + q)) ++ offsets r ws) (omega arith)

      ends : length (xs ++ ulong_bytes (p + q)) + 8 * length ws ≡ length xs + 8 * length (w ∷ ws)
      ends = omega (arith, read_to)

      news :
          (new ++ ulong_bytes q) ++ offsets (q + length (image w)) ws
          ≡ new ++ (ulong_bytes q ++ offsets (q + length (image w)) ws)
      news = append_assoc new (ulong_bytes q) (offsets (q + length (image w)) ws)

      olds : drop (8 * length ws) (drop 8 old) ≡ drop (8 * length (w ∷ ws)) old
      olds = drop-drop 8 (8 * length ws) old ∙ ap (λ m. drop m old) (omega arith)
