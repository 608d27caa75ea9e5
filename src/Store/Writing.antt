-- ===== src/Store/Writing.antt =====
-- fs_log_store.cxx: write_at changes the log that the store keeps.
use cornerstone.Common.{
  ℕ, zero, suc, ◌+◌, ◌-◌, ◌*◌, ◌<◌, ◌≤◌, ◌≡◌, ◌^◌, refl, sym, ap, ◌∙◌, List, [], ◌∷◌, ◌++◌, length,
  take, arith, All, le→ltb_false, length-take,
}
use cornerstone.Buffer.{ok}
use cornerstone.Codec.Entry.{LogEntry, image, IsEntry}
use cornerstone.Log
use cornerstone.Log.{Log}
use cornerstone.Store.State.{Store}
use cornerstone.Store.Ops
use cornerstone.Store.Layout.{images}
use cornerstone.Store.Shape.{shape, Keeps}
use cornerstone.Store.Appends.{append-IsKept, next_first}
use cornerstone.Store.Overwrites.{placed}
use cornerstone.Store.Replaces.{write_at-Replaced, IsLong}

All-take : {A : Type 0} (P : A → Type 0) (n : ℕ) (xs : List A) → All P xs → All P (take n xs)
All-take P zero xs h = tt
All-take P (suc n) [] h = tt
All-take P (suc n) (x ∷ xs) (p, h) = (p, All-take P n xs h)

-- Writing an entry at an index that is still in the buffer, or at the next slot, makes the store keep
-- the log that ends with that entry: what was behind it is gone from the files and from the buffer.
-- The entry can be serialized, there is room as for an append, and at the last index the entry is as
-- long as the one in its place, since the data file is not cut there.
pub write_at-Keeps :
    (s : Store) (l : Log) (index : ℕ) (e : LogEntry) (h : Keeps s l)
    → IsEntry e
    → s.buf.start_idx ≤ index
    → index ≤ Log.next_slot l
    → index + 1 < 2 ^ 64
    → 8 * (index - l.start) + 8 < 2 ^ 31
    → length (images (take (index - l.start) l.entries)) + length (image e) < 2 ^ 31
    → (index + 1 ≡ Log.next_slot l
        → length (images l.entries)
          ≤ length (images (take (index - l.start) l.entries)) + length (image e))
    → (r : Log) × ((Log.write_at l index e ≡ ok r)
        × (((Ops.write_at index e s).0 ≡ ok tt) × Keeps (Ops.write_at index e s).1 r))
unfolding Log.next_slot Log.write_at
write_at-Keeps s l index e h v a' b c d f g = (
  record l { entries = us ++ (e ∷ []) },
  (
    rw
        (
          le→ltb_false index l.start (omega (arith, a)),
          le→ltb_false (l.start + length l.entries) index b,
        )
        refl,
    (
      ap (λ x. (Ops.write_at index e x).0) h.same ∙ ap (λ x. x.0) replaced,
      record {
        first = next_first h.first h.size l.start us e;
        size = h.size;
        places = _;
        same = ap (λ x. (Ops.write_at index e x).1) h.same ∙ ap (λ x. x.1) replaced;
        kept =
            append-IsKept h.first h.size l.start us e
              (All-take IsEntry (index - l.start) l.entries h.kept.entries)
              (omega (arith, count, a)) (omega (arith, count, b, h.kept.window)) h.kept.size
              h.kept.max v (omega (arith, count, a, c)) (omega (arith, count, d)) f;
      },
    ),
  ),
)
  where
    a : l.start + h.first ≤ index
    a = omega (arith, a', ap (λ x. x.buf.start_idx) h.same)

    us : List LogEntry
    us = take (index - l.start) l.entries

    count : length us ≡ index - l.start
    count = length-take (index - l.start) l.entries (omega (arith, a, b))

    here : l.start + (index - l.start) ≡ index
    here = omega (arith, a)

    long : IsLong h.first h.size h.places e v (index - l.start) l
    long q = g (omega (arith, q, a))

    replaced :
        Ops.write_at index e (shape l h.first h.size h.places)
        ≡ (ok tt, placed l.start us e h.first h.size h.places)
    replaced =
        ap (λ j. Ops.write_at j e (shape l h.first h.size h.places)) (sym here)
        ∙ write_at-Replaced h.first h.size h.places e v l (index - l.start) h.kept
            (omega (arith, a)) (omega (arith, a, b)) (omega (arith, a, c)) long
