-- ===== src/Store/Entries.antt =====
-- fs_log_store.cxx: log_entries on a range that reaches the buffer, and on one that ends before it.
use cornerstone.Common.{
  ℕ, zero, suc, ◌+◌, ◌-◌, ◌<◌, ◌≤◌, ◌≡◌, ◌^◌, ◌%◌, refl, sym, ap, ◌∙◌, List, [], ◌∷◌, ◌++◌, length,
  take, drop, map, arith, true, false, Bool-cases, inl, inr, ◌⊎◌, none, some, ltb, leb, lt_int32,
  add64, sub64, to_int32, le→ltb_false, lt→ltb, ◌||◌, length-drop, replicate, if◌then◌else◌, subst,
}
use mathlib.Core.List.{map-append}
use cornerstone.Buffer.{Result, ok, err, bad_write, Error}
use cornerstone.Codec.Entry.{LogEntry}
use cornerstone.Log
use cornerstone.Log.{Log}
use cornerstone.Store.Memory.{fill}
use cornerstone.Store.State.{Store, and_then}
use cornerstone.Store.Bulk
use cornerstone.Store.Shape.{Places, shape, IsKept, Keeps}
use cornerstone.Store.Refine.{Answers, Keeps-Answers}
use cornerstone.Store.Loads.{load_missing-part, load_missing-Crash}
use cornerstone.Store.Ranges.{slice_lem, drop-plus, take-beyond, entries_of, log_entries-shape}

take_nil : (n : ℕ) → take {A = LogEntry} n [] ≡ []
take_nil zero = refl
take_nil (suc n) = refl

take-plus : (a b : ℕ) (xs : List LogEntry) → take a xs ++ take b (drop a xs) ≡ take (a + b) xs
take-plus zero b xs = ap (λ n. take n xs) (omega arith)
take-plus (suc a) b [] = take_nil b ∙ sym (take_nil (suc a + b))
take-plus (suc a) b (x ∷ xs) =
    ap (◌∷◌ x) (take-plus a b xs)
    ∙ ap (λ n. take n (x ∷ xs)) (let q : suc (a + b) ≡ suc a + b = omega arith in q)

-- What was loaded, and what was in the buffer behind it.
joined :
    (j k m : ℕ) (es : List LogEntry)
    → j ≤ k
    → map some (take (k - j) (drop j es)) ++ map some (take m (drop k es))
      ≡ map some (take (k - j + m) (drop j es))
joined j k m es h =
    sym (map-append some (take (k - j) (drop j es)) (take m (drop k es)))
    ∙ ap (λ xs. map some (take (k - j) (drop j es) ++ take m xs))
        (ap (λ i. drop i es) (let q : k ≡ k - j + j = omega (arith, h) in q)
          ∙ sym (drop-plus j (k - j) es))
    ∙ ap (map some) (take-plus (k - j) m (drop j es))

module _ (l : Log) (k n : ℕ) (at : Places) (h : IsKept l k n) (first end : ℕ) where
  -- A range that begins before the buffer and reaches it.
  fill_front :
      l.start ≤ first
      → first < l.start + k
      → l.start + k ≤ end
      → end ≤ l.start + length l.entries
      → fill (shape l k n at).buf first end
        ≡ ok (
          l.start + k,
          replicate (k - (first - l.start)) none
              ++ map some (take (end - (l.start + k)) (drop k l.entries)),
        )
  unfolding fill
  fill_front a b c d =
      rw
        (
          le→ltb_false end (l.start + k) c,
          negative,
          count,
          positive,
          slice_lem (drop k l.entries) 0 (end - (l.start + k))
              (omega (arith, a, b, c, d, length-drop k l.entries)),
          gap,
          gap_positive,
        )
        refl
    where
      negative : lt_int32 0 (to_int32 (sub64 first (l.start + k))) ≡ false
      negative = ground (arith, a, b, h.slots, h.offsets, h.first)

      count : to_int32 (sub64 end (l.start + k)) ≡ end - (l.start + k)
      count = ground (arith, c, d, h.slots, h.offsets)

      positive :
          (if lt_int32 0 (end - (l.start + k)) then end - (l.start + k) else 0)
          ≡ end - (l.start + k)
      positive = ground (arith, c, d, h.slots, h.offsets)

      gap : (2 ^ 32 - to_int32 (sub64 first (l.start + k))) % 2 ^ 32 ≡ k - (first - l.start)
      gap = ground (arith, a, b, h.slots, h.offsets, h.first)

      gap_positive : lt_int32 0 (k - (first - l.start)) ≡ true
      gap_positive = ground (arith, a, b, h.offsets, h.first)

module _ (l : Log) (k n : ℕ) (at : Places) (h : IsKept l k n) (first last : ℕ) where
  -- With the end of the range, the requested one or that of the log.
  front_ends :
      (end : ℕ)
      → l.start ≤ first
      → first < l.start + k
      → l.start + k ≤ end
      → end ≤ l.start + length l.entries
      → take (end - first) (drop (first - l.start) l.entries)
        ≡ take (last - first) (drop (first - l.start) l.entries)
      → map some (take (k - (first - l.start)) (drop (first - l.start) l.entries))
          ++ map some (take (end - (l.start + k)) (drop k l.entries))
        ≡ map some (take (last - first) (drop (first - l.start) l.entries))
  front_ends end a b c d e =
      joined (first - l.start) k (end - (l.start + k)) l.entries (omega (arith, a, b))
      ∙ ap (λ i. map some (take i (drop (first - l.start) l.entries))) (omega (arith, a, b, c))
      ∙ ap (map some) e

  log_entries_front :
      l.start ≤ first
      → first < l.start + k
      → l.start + k ≤ last
      → last < 2 ^ 64
      → Answers l k n
          (entries_of (Log.log_entries l first last))
          (Bulk.log_entries first last (shape l k n at))
  unfolding Bulk.log_entries Log.log_entries
  log_entries_front a b c d = elim (Bool-cases (ltb (length l.entries) (last - l.start))) [
    | inl y ↦
        let (p, r) =
          load_missing-part l k n at h (first - l.start)
            (map some (take (l.start + length l.entries - (l.start + k)) (drop k l.entries)))
            (omega (arith, a, b)) in
        (
          p,
          rw
              (
                le→ltb_false first l.start a,
                slot,
                inside,
                last_at,
                y,
                first_at,
                end_all,
                some_left,
                fill_front l k n at h first (l.start + length l.entries) a b
                    (omega (arith, h.first)) (omega arith),
                lt→ltb first (l.start + k) b,
                r,
                front_ends (l.start + length l.entries) a b (omega (arith, h.first)) (omega arith)
                    (both y),
              )
              refl,
        )
    | inr y ↦
        let (p, r) =
          load_missing-part l k n at h (first - l.start)
            (map some (take (last - (l.start + k)) (drop k l.entries))) (omega (arith, a, b)) in
        (
          p,
          rw
              (
                le→ltb_false first l.start a,
                slot,
                inside,
                last_at,
                y,
                first_at,
                end_last,
                last_left,
                fill_front l k n at h first last a b c (ground (arith, y, c)),
                lt→ltb first (l.start + k) b,
                r,
                front_ends last a b c (ground (arith, y, c)) refl,
              )
              refl,
        )
  ]
    where
      slot : add64 l.start (length l.entries) ≡ l.start + length l.entries
      slot = omega (arith, h.slots)

      inside : (leb last first || leb (l.start + length l.entries) first) ≡ false
      inside = ground (arith, b, c, h.first)

      last_at : sub64 last l.start ≡ last - l.start
      last_at = ground (arith, a, b, c, d)

      first_at : sub64 first l.start ≡ first - l.start
      first_at = ground (arith, a, b, c, d)

      end_all : add64 (length l.entries) l.start ≡ l.start + length l.entries
      end_all = omega (arith, h.slots)

      some_left : leb (length l.entries) (first - l.start) ≡ false
      some_left = ground (arith, a, b, h.first)

      end_last : add64 (last - l.start) l.start ≡ last
      end_last = ground (arith, a, b, c, d)

      last_left : leb (last - l.start) (first - l.start) ≡ false
      last_left = ground (arith, a, b, c)

      both :
          ltb (length l.entries) (last - l.start) ≡ true
          → take (l.start + length l.entries - first) (drop (first - l.start) l.entries)
            ≡ take (last - first) (drop (first - l.start) l.entries)
      both y =
          take-beyond (l.start + length l.entries - first) (drop (first - l.start) l.entries)
            (ground (arith, a, length-drop (first - l.start) l.entries))
          ∙ sym (
              take-beyond (last - first) (drop (first - l.start) l.entries)
                (ground (arith, y, a, length-drop (first - l.start) l.entries)))

  log_entries_below :
      first < l.start
      → Answers l k n
          (entries_of (Log.log_entries l first last))
          (Bulk.log_entries first last (shape l k n at))
  unfolding Bulk.log_entries Log.log_entries
  log_entries_below a = (at, rw (lt→ltb first l.start a) refl)

  log_entries_empty :
      l.start ≤ first
      → last ≤ first
      → Answers l k n
          (entries_of (Log.log_entries l first last))
          (Bulk.log_entries first last (shape l k n at))
  unfolding Bulk.log_entries Log.log_entries
  log_entries_empty a b = (
    at,
    rw (le→ltb_false first l.start a, (let q : leb last first ≡ true = ground (arith, b) in q))
        refl,
  )

  log_entries-Answers :
      (l.start + k ≤ last) ⊎ (last ≤ first)
      → last < 2 ^ 64
      → Answers l k n
          (entries_of (Log.log_entries l first last))
          (Bulk.log_entries first last (shape l k n at))
  log_entries-Answers c d = elim (Bool-cases (ltb first l.start)) [
    | inl x ↦ log_entries_below (ground (arith, x))
    | inr x ↦ elim (Bool-cases (leb last first)) [
      | inl y ↦ log_entries_empty (ground (arith, x)) (ground (arith, y))
      | inr y ↦ elim (Bool-cases (ltb first (l.start + k))) [
        | inl z ↦ log_entries_front (ground (arith, x)) (ground (arith, z)) (ground (arith, c, y)) d
        | inr z ↦ log_entries-shape l k n at h first last (ground (arith, z)) d
      ]
    ]
  ]

-- Asked for a range that ends in its buffer or behind it, or just before it, a store that keeps a log
-- answers as the log does: with the entries up to the last one, each of them there, those that have left
-- the buffer from its files; with the null pointer where the range is empty or begins behind the last
-- entry; and with an error where it begins below the first one. It still keeps the log.
pub log_entries-Keeps :
    (s : Store) (l : Log) (first last : ℕ)
    → Keeps s l
    → (s.buf.start_idx ≤ last) ⊎ (last ≤ first)
    → last < 2 ^ 64
    → ((Bulk.log_entries first last s).0 ≡ entries_of (Log.log_entries l first last))
      × Keeps (Bulk.log_entries first last s).1 l
log_entries-Keeps s l first last h a b =
    Keeps-Answers (Bulk.log_entries first last) s l (entries_of (Log.log_entries l first last)) h (
      log_entries-Answers l h.first h.size h.places h.kept first last
        (subst (λ x. (x.buf.start_idx ≤ last) ⊎ (last ≤ first)) h.same a) b)

crash_then :
    {A B : Type 0} (f : A → Store → Result B × Store) (r : Result A × Store) (e : Error)
    → r.0 ≡ err e
    → (and_then f r).0 ≡ err e
crash_then f (ok a, s) e h = cc
crash_then f (err x, s) e h = cc

module _ (l : Log) (k n : ℕ) (at : Places) (h : IsKept l k n) (first last : ℕ) where
  log_entries-crash :
      l.start ≤ first
      → first < last
      → last < l.start + k
      → (Bulk.log_entries first last (shape l k n at)).0 ≡ err bad_write
  unfolding Bulk.log_entries fill
  log_entries-crash a b c =
      rw
        (
          le→ltb_false first l.start a,
          (let q : add64 l.start (length l.entries) ≡ l.start + length l.entries =
                omega (arith, h.slots) in
              q),
          inside,
          last_at,
          short,
          first_at,
          end_last,
          last_left,
          lt→ltb last (l.start + k) c,
          lt→ltb first (l.start + k) (omega (arith, b, c)),
        )
        (crash_then _ (Bulk.load_missing (first - l.start) (l.start + k) [] (shape l k n at))
          bad_write (load_missing-Crash l k n at h (first - l.start) (omega (arith, a, b, c))))
    where
      inside : (leb last first || leb (l.start + length l.entries) first) ≡ false
      inside = ground (arith, b, c, h.first)

      last_at : sub64 last l.start ≡ last - l.start
      last_at = ground (arith, a, b, c, h.first, h.slots)

      short : ltb (length l.entries) (last - l.start) ≡ false
      short = ground (arith, a, b, c, h.first)

      first_at : sub64 first l.start ≡ first - l.start
      first_at = ground (arith, a, b, c, h.first, h.slots)

      end_last : add64 (last - l.start) l.start ≡ last
      end_last = ground (arith, a, b, c, h.first, h.slots)

      last_left : leb (last - l.start) (first - l.start) ≡ false
      last_left = ground (arith, a, b, c)

-- Asked for a range of the log that ends one entry at least before its buffer begins, a store
-- that keeps a log writes behind the end of the vector of results.
pub log_entries-bad_write :
    (s : Store) (l : Log) (first last : ℕ)
    → Keeps s l
    → l.start ≤ first
    → first < last
    → last < s.buf.start_idx
    → (Bulk.log_entries first last s).0 ≡ err bad_write
log_entries-bad_write s l first last h a b c =
    ap (λ x. (Bulk.log_entries first last x).0) h.same
    ∙ log_entries-crash l h.first h.size h.places h.kept first last a b
        (omega (arith, c, ap (λ x. x.buf.start_idx) h.same))
