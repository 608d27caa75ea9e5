-- ===== src/Store/Compacts.antt =====
-- fs_log_store.cxx: compact drops the front of the log that the store keeps.
use cornerstone.Common.{
  ℕ, ◌+◌, ◌-◌, ◌<◌, ◌≤◌, ◌≡◌, ◌^◌, refl, sym, ap, ◌∙◌, List, [], ◌∷◌, ◌++◌, length, arith, true,
  false, append-nil, ltb, leb, sub64, add64, length-append, drop-append, Bool-cases, ltb→lt,
  le→ltb_false, inl, inr, subst,
}
use cornerstone.Buffer.{ulong_bytes, ok}
use cornerstone.Codec.Entry.{LogEntry}
use cornerstone.Log
use cornerstone.Log.{Log}
use cornerstone.Store.File
use cornerstone.Store.File.{File, file}
use cornerstone.Store.State.{Store}
use cornerstone.Store.Compact.{compact, backup, copy_rest}
use cornerstone.Store.Layout.{images, offsets, length-offsets, part}
use cornerstone.Store.Shape.{Places, shape, IsKept, Keeps}
use cornerstone.Store.Shifts.{copy_rest-part, drop-nil}
use cornerstone.Store.Clears.{
  clear_all-shape, clear_front-shape, left-IsKept, begin, nonempty, total,
}

-- A backup of a file is the file.
copy_all :
    (bytes : List ℕ)
    → 0 < length bytes
    → copy_rest (file [] 0) (file bytes 0) ≡ file bytes (length bytes)
copy_all bytes h =
    copy_rest-part [] bytes [] bytes refl h
    ∙ ap (λ b. file b (length bytes)) (ap (◌++◌ bytes) (drop-nil (length bytes)) ∙ append-nil bytes)

no_images : length (images []) ≡ 0
unfolding images
no_images = refl

compact_all :
    (l : Log) (last : ℕ)
    → l.start ≤ last
    → l.start + length l.entries ≤ last + 1
    → Log.compact l last ≡ ok (record { start = last + 1; entries = [] })
unfolding Log.compact
compact_all l last b d = rw (le→ltb_false last l.start b, all) refl
  where
    all : leb (l.start + length l.entries) (last + 1) ≡ true
    all = ground (arith, d)

module _ (k n : ℕ) (at : Places) (last : ℕ) where
  -- How a compaction ends.
  pub record IsCompacted (l : Log) : Type 0 where
    pub rest : Log
    pub first : ℕ
    pub places : Places
    pub spec : Log.compact l last ≡ ok rest
    pub same : compact last (shape l k n at) ≡ (ok true, shape rest first n places)
    pub kept : IsKept rest first n

  -- The store after the backups.
  abbrev saved : Log → Places
  saved l = record {
    idx = length (offsets 0 l.entries);
    dat = length (images l.entries);
    sti = length (ulong_bytes l.start);
  }

  run_all :
      (l : Log)
      → IsKept l k n
      → 0 < l.start
      → l.start ≤ last
      → last + 1 < 2 ^ 64
      → l.start + length l.entries ≤ last + 1
      → compact last (shape l k n at) ≡ (
        ok true,
        shape
            (record { start = last + 1; entries = [] })
            0
            n
            (record { idx = 0; dat = 0; sti = 8 }),
      )
  unfolding compact backup File.seek
  run_all l h a b c d =
      rw (le→ltb_false last l.start b, all, clear_all-shape l k n (saved l) last c) refl
    where
      all : leb (sub64 (add64 l.start (length l.entries)) 1) last ≡ true
      all = ground (arith, h.slots, a, d)

  all-IsCompacted :
      (l : Log)
      → IsKept l k n
      → 0 < l.start
      → l.start ≤ last
      → last + 1 < 2 ^ 64
      → l.start + length l.entries ≤ last + 1
      → IsCompacted l
  all-IsCompacted l h a b c d = record {
    rest = record { start = last + 1; entries = [] };
    first = 0;
    places = record { idx = 0; dat = 0; sti = 8 };
    spec = compact_whole;
    same = all_same;
    kept = record {
      entries = tt;
      slots = omega (arith, c);
      offsets = omega arith;
      bytes = few;
      first = omega arith;
      last = λ z. absurd (omega (arith, z));
      window = omega arith;
      size = h.size;
      max = h.max;
    };
  }
    where
      few : length (images []) < 2 ^ 31
      few = omega (arith, no_images)

      compact_whole : Log.compact l last ≡ ok (record { start = last + 1; entries = [] })
      compact_whole = compact_all l last b d

      all_same : compact last (shape l k n at) ≡ (
        ok true,
        shape
            (record { start = last + 1; entries = [] })
            0
            n
            (record { idx = 0; dat = 0; sti = 8 }),
      )
      all_same = run_all l h a b c d

  module _ (start : ℕ) (us : List LogEntry) (e : LogEntry) (vs : List LogEntry)
      (h : IsKept (record { start = start; entries = us ++ (e ∷ vs) }) k n) (b : start ≤ last)
      (q : last + 1 ≡ start + length us) where
    abbrev l : Log
    l = record { start = start; entries = us ++ (e ∷ vs) }

    counted : length l.entries ≡ length us + 1 + length vs
    counted = omega (arith, length-append us (e ∷ vs))

    compact_front : Log.compact l last ≡ ok (record { start = last + 1; entries = e ∷ vs })
    unfolding Log.compact
    compact_front = rw (le→ltb_false last start b, more, gone, drop-append us (e ∷ vs)) refl
      where
        more : leb (start + length (us ++ (e ∷ vs))) (last + 1) ≡ false
        more = ground (arith, q, counted)

        gone : last + 1 - start ≡ length us
        gone = omega (arith, q)

    front_run : compact last (shape l k n at) ≡ (
      ok true,
      shape
          (record { start = last + 1; entries = e ∷ vs })
          (begin start us e vs k n at last h q)
          n
          (record { idx = length (offsets 0 (e ∷ vs)); dat = length (images (e ∷ vs)); sti = 8 }),
    )
    unfolding compact backup File.seek
    front_run =
        rw
          (
            le→ltb_false last start b,
            not_all,
            copy_all (offsets 0 l.entries) (omega (arith, counted, length-offsets 0 l.entries)),
            copy_all (images l.entries) (
                omega (
                  arith,
                  total start us e vs k n at last h q,
                  nonempty start us e vs k n at last h q,
                )),
            clear_front-shape start us e vs k n (saved l) last h q b,
          )
          refl
      where
        not_all : leb (sub64 (add64 start (length l.entries)) 1) last ≡ false
        not_all = ground (arith, h.slots, counted, q)

    front-IsCompacted : IsCompacted l
    front-IsCompacted = record {
      rest = record { start = last + 1; entries = e ∷ vs };
      first = begin start us e vs k n at last h q;
      places = _;
      spec = compact_front;
      same = front_run;
      kept = left-IsKept start us e vs k n at last h q (omega (arith, q, h.slots, counted));
    }

  some-IsCompacted :
      (l : Log)
      → IsKept l k n
      → l.start ≤ last
      → last + 1 < l.start + length l.entries
      → IsCompacted l
  some-IsCompacted l h b c =
      let r = part l.entries (last + 1 - l.start) (omega (arith, b, c)) in
      subst (λ es. IsKept (record l { entries = es }) k n → IsCompacted (record l { entries = es }))
        (sym r.same)
        (λ h'. front-IsCompacted l.start r.us r.e r.vs h' b (omega (arith, r.count, b))) h

-- Compacting a store that keeps a log up to an index at its start or behind it returns true, and the
-- store then keeps the compacted log: the entries behind the index, with their offsets counted anew,
-- or none where the index is the last one or behind it. The start is not 0, and the index plus 1 fits
-- an ulong.
pub compact-Keeps :
    (s : Store) (l : Log) (last : ℕ)
    → Keeps s l
    → 0 < l.start
    → l.start ≤ last
    → last + 1 < 2 ^ 64
    → (r : Log) × ((Log.compact l last ≡ ok r)
        × (((compact last s).0 ≡ ok true) × Keeps (compact last s).1 r))
compact-Keeps s l last h a b c =
    let r = done in
    (
      r.rest,
      (
        r.spec,
        (
          ap (λ x. (compact last x).0) h.same ∙ ap (λ x. x.0) r.same,
          record {
            first = r.first;
            size = h.size;
            places = r.places;
            same = ap (λ x. (compact last x).1) h.same ∙ ap (λ x. x.1) r.same;
            kept = r.kept;
          },
        ),
      ),
    )
  where
    done : IsCompacted h.first h.size h.places last l
    done = elim (Bool-cases (ltb (last + 1) (l.start + length l.entries))) [
      | inl q ↦ some-IsCompacted h.first h.size h.places last l h.kept b (ltb→lt _ _ q)
      | inr q ↦ all-IsCompacted h.first h.size h.places last l h.kept a b c (ground (arith, q))
    ]
