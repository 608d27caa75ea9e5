-- ===== src/Store/Ranges.antt =====
-- fs_log_store.cxx: log_entries on a range that begins in the buffer.
use cornerstone.Common.{
  ℕ, zero, suc, ◌+◌, ◌-◌, ◌<◌, ◌≤◌, ◌≡◌, ◌^◌, ◌%◌, refl, sym, ap, ◌∙◌, List, [], ◌∷◌, length, take,
  drop, map, arith, true, false, Bool-cases, inl, inr, Option, none, some, ltb, leb, lt_int32,
  add64, sub64, to_int32, le→ltb_false, ◌||◌, length-drop, get_elem?,
}
use cornerstone.Buffer.{Result, ok, err}
use cornerstone.Codec.Entry.{LogEntry}
use cornerstone.Log
use cornerstone.Log.{Log}
use cornerstone.Store.Memory.{slice, fill, push}
use cornerstone.Store.Bulk
use cornerstone.Store.Shape.{Places, shape, IsKept}
use cornerstone.Store.Refine.{Answers}

pub drop_empty : (n : ℕ) → drop {A = LogEntry} n [] ≡ []
drop_empty zero = refl
drop_empty (suc n) = refl

slice_shift :
    (x : LogEntry) (xs : List LogEntry) (off cnt : ℕ)
    → slice (x ∷ xs) (suc off) cnt ≡ slice xs off cnt
unfolding slice
slice_shift x xs off zero = refl
slice_shift x xs off (suc cnt) = ap (push (get_elem? xs off)) (slice_shift x xs (suc off) cnt)

-- The elements of a range that is there.
slice_front :
    (xs : List LogEntry) (cnt : ℕ) → cnt ≤ length xs → slice xs 0 cnt ≡ ok (map some (take cnt xs))
unfolding slice push
slice_front xs zero h = refl
slice_front [] (suc cnt) h = absurd (omega (arith, h))
slice_front (x ∷ xs) (suc cnt) h =
    rw (slice_shift x xs 0 cnt, slice_front xs cnt (omega (arith, h))) refl

pub slice_lem :
    (xs : List LogEntry) (off cnt : ℕ)
    → off + cnt ≤ length xs
    → slice xs off cnt ≡ ok (map some (take cnt (drop off xs)))
slice_lem xs zero cnt h = slice_front xs cnt (omega (arith, h))
slice_lem [] (suc off) cnt h = absurd (omega (arith, h))
slice_lem (x ∷ xs) (suc off) cnt h =
    slice_shift x xs off cnt ∙ slice_lem xs off cnt (omega (arith, h))

pub drop-plus : (a b : ℕ) (xs : List LogEntry) → drop b (drop a xs) ≡ drop (b + a) xs
drop-plus zero b xs = ap (λ m. drop m xs) (omega arith)
drop-plus (suc a) b [] = drop_empty b ∙ sym (drop_empty (b + suc a))
drop-plus (suc a) b (x ∷ xs) =
    drop-plus a b xs
    ∙ ap (λ m. drop m (x ∷ xs)) (let q : suc (b + a) ≡ b + suc a = omega arith in q)

-- No more than there is can be taken.
pub take-beyond : (n : ℕ) (xs : List LogEntry) → length xs ≤ n → take n xs ≡ take (length xs) xs
take-beyond zero [] h = refl
take-beyond (suc n) [] h = refl
take-beyond zero (x ∷ xs) h = absurd (omega (arith, h))
take-beyond (suc n) (x ∷ xs) h = ap (◌∷◌ x) (take-beyond n xs (omega (arith, h)))

module _ (l : Log) (k n : ℕ) (at : Places) (h : IsKept l k n) (first end : ℕ) where
  -- A range that the log has, from the first entry of the buffer on.
  fill-shape :
      l.start + k ≤ first
      → first < end
      → end ≤ l.start + length l.entries
      → fill (shape l k n at).buf first end
        ≡ ok (l.start + k, map some (take (end - first) (drop (first - l.start) l.entries)))
  unfolding fill
  fill-shape a b c = elim (Bool-cases (lt_int32 0 off)) [
    | inl z ↦
        rw
          (
            le→ltb_false end (l.start + k) (omega (arith, a, b)),
            offset,
            z,
            count,
            positive,
            slice_lem (drop k l.entries) off (end - first) (omega (arith, room)),
            tail,
          )
          refl
    | inr z ↦
        rw
          (
            le→ltb_false end (l.start + k) (omega (arith, a, b)),
            offset,
            z,
            back z,
            count_front z,
            positive,
            slice_lem (drop k l.entries) 0 (end - first) (omega (arith, room)),
            tail_front z,
          )
          refl
  ]
    where
      off : ℕ
      off = first - (l.start + k)

      offset : to_int32 (sub64 first (l.start + k)) ≡ off
      offset = ground (arith, a, b, c, h.slots, h.offsets)

      count : to_int32 (sub64 end first) ≡ end - first
      count = ground (arith, a, b, c, h.slots, h.offsets)

      positive : lt_int32 0 (end - first) ≡ true
      positive = ground (arith, a, b, c, h.offsets)

      room : off + (end - first) ≤ length (drop k l.entries)
      room = omega (arith, a, b, c, length-drop k l.entries)

      tail : drop off (drop k l.entries) ≡ drop (first - l.start) l.entries
      tail = drop-plus k off l.entries ∙ ap (λ m. drop m l.entries) (omega (arith, a))

      back : lt_int32 0 off ≡ false → (2 ^ 32 - off) % 2 ^ 32 ≡ 0
      back z = ground (arith, z, a, b, c, h.offsets)

      count_front : lt_int32 0 off ≡ false → to_int32 (sub64 end (l.start + k)) ≡ end - first
      count_front z = ground (arith, z, a, b, c, h.slots, h.offsets)

      tail_front : lt_int32 0 off ≡ false → drop k l.entries ≡ drop (first - l.start) l.entries
      tail_front z = ap (λ m. drop m l.entries) (ground (arith, z, a, b, c, h.offsets))

-- The entries of the log, none of them a null pointer.
abbrev pub entries_of : Result (Option (List LogEntry)) → Result (Option (List (Option LogEntry)))
entries_of (ok none) = ok none
entries_of (ok (some es)) = ok (some (map some es))
entries_of (err e) = err e

module _ (l : Log) (k n : ℕ) (at : Places) (h : IsKept l k n) (first last : ℕ) where
  pub log_entries-shape :
      l.start + k ≤ first
      → last < 2 ^ 64
      → Answers l k n
          (entries_of (Log.log_entries l first last))
          (Bulk.log_entries first last (shape l k n at))
  unfolding Bulk.log_entries Log.log_entries
  log_entries-shape a b =
      elim (Bool-cases (leb last first || leb (l.start + length l.entries) first)) [
        | inl z ↦ (at, rw (le→ltb_false first l.start (omega (arith, a)), slot, z) refl)
        | inr z ↦ elim (Bool-cases (ltb (length l.entries) (last - l.start))) [
          | inl y ↦ (
            at,
            rw
                (
                  le→ltb_false first l.start (omega (arith, a)),
                  slot,
                  z,
                  last_at z,
                  y,
                  first_at z,
                  end_all,
                  some_left z,
                  fill-shape l k n at h first (l.start + length l.entries) a (ground (arith, z))
                      (omega arith),
                  le→ltb_false first (l.start + k) a,
                  both z y,
                )
                refl,
          )
          | inr y ↦ (
            at,
            rw
                (
                  le→ltb_false first l.start (omega (arith, a)),
                  slot,
                  z,
                  last_at z,
                  y,
                  first_at z,
                  end_last z,
                  last_left z,
                  fill-shape l k n at h first last a (ground (arith, z)) (ground (arith, z, y, a)),
                  le→ltb_false first (l.start + k) a,
                )
                refl,
          )
        ]
      ]
    where
      slot : add64 l.start (length l.entries) ≡ l.start + length l.entries
      slot = omega (arith, h.slots)

      last_at :
          (leb last first || leb (l.start + length l.entries) first) ≡ false
          → sub64 last l.start ≡ last - l.start
      last_at z = ground (arith, z, a, b)

      first_at :
          (leb last first || leb (l.start + length l.entries) first) ≡ false
          → sub64 first l.start ≡ first - l.start
      first_at z = ground (arith, z, a, h.slots)

      end_all : add64 (length l.entries) l.start ≡ l.start + length l.entries
      end_all = omega (arith, h.slots)

      some_left :
          (leb last first || leb (l.start + length l.entries) first) ≡ false
          → leb (length l.entries) (first - l.start) ≡ false
      some_left z = ground (arith, z, a)

      end_last :
          (leb last first || leb (l.start + length l.entries) first) ≡ false
          → add64 (last - l.start) l.start ≡ last
      end_last z = ground (arith, z, a, b)

      last_left :
          (leb last first || leb (l.start + length l.entries) first) ≡ false
          → leb (last - l.start) (first - l.start) ≡ false
      last_left z = ground (arith, z, a)

      both :
          (leb last first || leb (l.start + length l.entries) first) ≡ false
          → ltb (length l.entries) (last - l.start) ≡ true
          → take (l.start + length l.entries - first) (drop (first - l.start) l.entries)
            ≡ take (last - first) (drop (first - l.start) l.entries)
      both z y =
          take-beyond (l.start + length l.entries - first) (drop (first - l.start) l.entries)
            (ground (arith, z, a, length-drop (first - l.start) l.entries))
          ∙ sym (
              take-beyond (last - first) (drop (first - l.start) l.entries)
                (ground (arith, z, y, a, length-drop (first - l.start) l.entries)))
