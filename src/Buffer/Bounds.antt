-- ===== src/Buffer/Bounds.antt =====
-- buffer.cxx: the position stays within the block.
use cornerstone.Common.{
  ℕ, zero, suc, ◌+◌, ◌-◌, ◌<◌, ◌≤◌, ◌≡◌, ◌^◌, refl, ap, ◌∙◌, List, [], ◌∷◌, length, arith, lt→ltb,
  le→ltb_false,
}
use cornerstone.Buffer.{
  Buffer, ok, err, overflow_error, size, move_forward, overwrite, avail, put_bytes,
}

-- A block that can be allocated, with the position within it.
pub record IsWithin (b : Buffer) : Type 0 where
  pub block : size b < 2 ^ 31
  pub pos : b.pos ≤ size b

length-overwrite : (old : List ℕ) (p : ℕ) (xs : List ℕ) → length (overwrite old p xs) ≡ length old
unfolding overwrite
length-overwrite old p [] = refl
length-overwrite [] p (x ∷ xs) = refl
length-overwrite (o ∷ old) zero (x ∷ xs) = ap suc (length-overwrite old zero xs)
length-overwrite (o ∷ old) (suc p) (x ∷ xs) = ap suc (length-overwrite old p (x ∷ xs))

pub avail-within : (b : Buffer) → IsWithin b → avail b ≡ size b - b.pos
unfolding avail size
avail-within b h = omega (arith, h.block, h.pos)

pub moved :
    (b : Buffer) (d : ℕ) → size b < 2 ^ 31 → b.pos + d ≤ size b → (move_forward b d).pos ≡ b.pos + d
unfolding move_forward size
moved b d h k = ground (arith, h, k)

pub moved_size : (b : Buffer) (d : ℕ) → size (move_forward b d) ≡ size b
unfolding move_forward size
moved_size b d = ground arith

size-overwrite :
    (b : Buffer) (xs : List ℕ) → size (record b { bytes = overwrite b.bytes b.pos xs }) ≡ size b
unfolding size
size-overwrite b xs = length-overwrite b.bytes b.pos xs

-- How a write ends: with an error where the bytes do not fit, and else with the position behind
-- them and a block of the same size.
pub record Written (b : Buffer) (xs : List ℕ) : Type 0 where
  pub full : size b - b.pos < length xs → put_bytes b xs ≡ err overflow_error
  pub fits :
      length xs ≤ size b - b.pos
      → (c : Buffer) × ((put_bytes b xs ≡ ok c) × ((size c ≡ size b) × (c.pos ≡ b.pos + length xs)))

-- From a position within the block a write either fails, where the bytes do not fit behind the
-- position, or moves the position behind them, still within a block of the same size.
pub put_bytes-Written : (b : Buffer) (xs : List ℕ) → IsWithin b → Written b xs
unfolding put_bytes
put_bytes-Written b xs h = record {
  full = λ k. rw (avail-within b h, lt→ltb (size b - b.pos) (length xs) k) refl;
  fits = λ k.
      let a = record b { bytes = overwrite b.bytes b.pos xs } in
      (
        move_forward a (length xs),
        (
          rw (avail-within b h, le→ltb_false (size b - b.pos) (length xs) k) refl,
          (
            moved_size a (length xs) ∙ size-overwrite b xs,
            moved a (length xs) (omega (arith, h.block, size-overwrite b xs))
                (omega (arith, h.pos, k, size-overwrite b xs)),
          ),
        ),
      );
}
