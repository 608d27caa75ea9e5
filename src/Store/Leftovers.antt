-- ===== src/Store/Leftovers.antt =====
-- fs_log_store.cxx: write_at at an index that has left the buffer.
use cornerstone.Common.{
  ℕ, zero, suc, ◌+◌, ◌-◌, ◌<◌, ◌≤◌, ◌≡◌, ◌^◌, refl, sym, ap, ◌∙◌, List, [], ◌∷◌, ◌++◌, length, drop,
  arith, true, false, ltb, leb, lt→ltb, get_elem?, subst,
}
use cornerstone.Buffer.{ok}
use cornerstone.Codec.Entry.{LogEntry, IsEntry}
use cornerstone.Log
use cornerstone.Log.{Log}
use cornerstone.Store.Memory
use cornerstone.Store.State.{Store}
use cornerstone.Store.Ops
use cornerstone.Store.Ops.{place, or_load}
use cornerstone.Store.Layout.{part}
use cornerstone.Store.Shape.{Places, shape, IsKept, Keeps}
use cornerstone.Store.Reads.{at-shape}
use cornerstone.Store.Terms.{get_elem?-within}
use cornerstone.Store.Cuts.{trimmed, counted}
use cornerstone.Store.Appends.{append-memory, next_first}
use cornerstone.Store.Overwrites.{write_at-place}

get_elem?-front :
    (xs ys : List LogEntry) (i : ℕ) → i < length xs → get_elem? (xs ++ ys) i ≡ get_elem? xs i
get_elem?-front [] ys i h = absurd (omega (arith, h))
get_elem?-front (x ∷ xs) ys zero h = refl
get_elem?-front (x ∷ xs) ys (suc i) h = get_elem?-front xs ys i (omega (arith, h))

module _ (start : ℕ) (us : List LogEntry) (o : LogEntry) (vs : List LogEntry) (k n : ℕ)
    (at : Places) (e : LogEntry) where
  abbrev l : Log
  l = record { start = start; entries = us ++ (o ∷ vs) }

  -- The buffer has the entry behind the ones that were dropped.
  abbrev stale : Store
  stale = record (trimmed start us o vs k n at e) {
    buf = record {
      start_idx = start + next_first k n start l.entries e;
      entries = drop (next_first k n start l.entries e) (l.entries ++ (e ∷ []));
      max_size = n;
    };
    entries_in_store = length us + 1;
  }

  place-stale :
      IsKept l k n
      → length us < k
      → start + k + 1 < 2 ^ 64
      → place (start + length us) (length us + 1) e (trimmed start us o vs k n at e) ≡ stale
  unfolding place Memory.trim
  place-stale h a b =
      rw
        (
          within,
          lt→ltb (start + length us) (start + k) (omega (arith, a)),
          append-memory k n start l.entries e h.first b,
        )
        refl
    where
      within : leb (length us + 1) (length (us ++ (o ∷ vs))) ≡ true
      within = ground (arith, counted start us o vs k n at e)

  entry_at-stale :
      (j : ℕ)
      → start + k < j
      → j < start + length l.entries
      → j < 2 ^ 64
      → (Ops.entry_at j stale).0 ≡ ok (get_elem? l.entries (j - start))
  unfolding Ops.entry_at or_load
  entry_at-stale j a b c =
      let (x, f) = get_elem?-within l.entries (j - start) (omega (arith, a, b)) in
      rw
        (
          at-shape (record { start = start; entries = l.entries ++ (e ∷ []) })
              (next_first k n start l.entries e) n at j c,
          below,
          get_elem?-front l.entries (e ∷ []) (j - start) (omega (arith, a, b)),
          f,
        )
        refl
    where
      below : ltb j (start + next_first k n start l.entries e) ≡ false
      below = ground (arith, a)

  write_at-stale :
      (j : ℕ)
      → IsKept l k n
      → IsEntry e
      → length us < k
      → start + k < j
      → j < start + length l.entries
      → start + length l.entries + 1 < 2 ^ 64
      → (Ops.next_slot (Ops.write_at (start + length us) e (shape l k n at)).1
          ≡ start + length us + 1)
        × ((Ops.entry_at j (Ops.write_at (start + length us) e (shape l k n at)).1).0
            ≡ ok (get_elem? l.entries (j - start)))
  unfolding Ops.next_slot
  write_at-stale j h v a b c d = (
    ap (λ x. Ops.next_slot x.1) run ∙ omega (arith, a, b, c, d),
    ap (λ x. (Ops.entry_at j x.1).0) run ∙ entry_at-stale j b c (omega (arith, c, d)),
  )
    where
      run : Ops.write_at (start + length us) e (shape l k n at) ≡ (ok tt, stale)
      run =
          write_at-place start us o vs k n at e h v
            (λ z. absurd (omega (arith, z, a, b, c, counted start us o vs k n at e)))
          ∙ ap (λ t. (ok tt, t)) (place-stale h a (omega (arith, b, c, d)))

-- Writing at an index that has left the buffer does not trim the buffer: the next slot is the one
-- behind the index, but at each index that the buffer had, from its second one on, the store still
-- gives the entry that was dropped. The entry can be serialized, and there is room for one more.
pub write_at-entry_at_stale :
    (s : Store) (l : Log) (index : ℕ) (e : LogEntry) (j : ℕ)
    → Keeps s l
    → IsEntry e
    → l.start ≤ index
    → index < s.buf.start_idx
    → s.buf.start_idx < j
    → j < Log.next_slot l
    → Log.next_slot l + 1 < 2 ^ 64
    → (Ops.next_slot (Ops.write_at index e s).1 ≡ index + 1)
      × ((Ops.entry_at j (Ops.write_at index e s).1).0 ≡ ok (get_elem? l.entries (j - l.start)))
unfolding Log.next_slot Ops.next_slot
write_at-entry_at_stale s l index e j h v a b' c' d f =
    let r =
      part l.entries (index - l.start) (omega (arith, a, b, h.kept.first, h.kept.last, c, d)) in
    let q =
      subst
        (λ es.
          IsKept (record l { entries = es }) h.first h.size
          → j < l.start + length es
          → l.start + length es + 1 < 2 ^ 64
          → (Ops.next_slot
                (Ops.write_at index e (shape (record l { entries = es }) h.first h.size h.places)).1
              ≡ index + 1)
            × ((Ops.entry_at j
                  (Ops.write_at index e
                    (shape (record l { entries = es }) h.first h.size h.places)).1).0
                ≡ ok (get_elem? es (j - l.start))))
        (sym r.same)
        (λ h' d' f'.
          let (x, y) =
            write_at-stale l.start r.us r.e r.vs h.first h.size h.places e j h' v
              (omega (arith, r.count, a, b)) c d' f' in
          let z : l.start + length r.us ≡ index = omega (arith, r.count, a) in
          (
            ap
                  (λ t.
                    Ops.next_slot
                      (Ops.write_at t e (
                        shape (record l { entries = r.us ++ (r.e ∷ r.vs) }) h.first h.size
                          h.places)).1)
                  (sym z)
                ∙ x
                ∙ ap (λ t. t + 1) z,
            ap
                  (λ t.
                    (Ops.entry_at j
                      (Ops.write_at t e (
                        shape (record l { entries = r.us ++ (r.e ∷ r.vs) }) h.first h.size
                          h.places)).1).0)
                  (sym z)
                ∙ y,
          )) in
    (
      ap (λ x. Ops.next_slot (Ops.write_at index e x).1) h.same ∙ (q h.kept d f).0,
      ap (λ x. (Ops.entry_at j (Ops.write_at index e x).1).0) h.same ∙ (q h.kept d f).1,
    )
  where
    b : index < l.start + h.first
    b = omega (arith, b', ap (λ x. x.buf.start_idx) h.same)

    c : l.start + h.first < j
    c = omega (arith, c', ap (λ x. x.buf.start_idx) h.same)
