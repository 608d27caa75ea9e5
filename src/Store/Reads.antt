-- ===== src/Store/Reads.antt =====
-- fs_log_store.cxx: what the reading operations find in a store that keeps a log.
use cornerstone.Common.{
  ℕ, ◌+◌, ◌-◌, ◌*◌, ◌<◌, ◌≤◌, ◌≡◌, ◌^◌, refl, sym, ap, ◌∙◌, List, [], ◌∷◌, ◌++◌, length, drop,
  arith, false, none, some, Bool-cases, inl, inr, ltb, leb, sub64, add64, to_int32, to_ulong,
  get_elem?, length-append, length-drop, append_assoc, if◌then◌else◌, subst, le→ltb_false,
}
use cornerstone.Buffer.{ok, sz_ulong, ulong_bytes}
use cornerstone.Buffer.Laws.{length-ulong_bytes}
use cornerstone.Codec.Entry.{LogEntry, IsEntry, image, deserialize-image}
use cornerstone.Log.{Log}
use cornerstone.Store.File
use cornerstone.Store.File.{file}
use cornerstone.Store.Memory
use cornerstone.Store.State.{Store, check_files, idx, dat, mul64}
use cornerstone.Store.Ops.{load_entry, read_entry}
use cornerstone.Store.Layout.{
  images, offsets, offsets-split, images-split, length-offsets, split, get_elem?-append,
  get_elem?-beyond, get_elem?-drop, All-append, read_buffer-part, read_ulong-part,
}
use cornerstone.Store.Shape.{Places, shape, IsKept}

-- The entry that stands between two offsets.
pub read_entry-part :
    (s : Store) (bytes xs ys : List ℕ) (e : LogEntry) (p q : ℕ)
    → IsEntry e
    → s.data_file ≡ file bytes p
    → bytes ≡ xs ++ (image e ++ ys)
    → q ≡ length xs + length (image e)
    → q < 2 ^ 31
    → read_entry (length xs) q s
      ≡ (ok e, record s { data_file = file bytes (length xs + length (image e)) })
unfolding read_entry File.seek
read_entry-part s bytes xs ys e p q v h c eq b =
    rw
      (
        h,
        size,
        read_buffer-part dat (record s { data_file = file bytes (length xs) }) bytes (length xs)
            refl xs (image e) ys (length (image e)) c refl refl (omega (arith, eq, b)),
        deserialize-image [] e v (omega (arith, eq, b)),
      )
      refl
  where
    size : to_ulong (to_int32 (sub64 q (length xs))) ≡ length (image e)
    size = ground (arith, eq, b)

-- An entry with another one behind it is found between the offsets of the two.
module _ (start : ℕ) (us : List LogEntry) (e f : LogEntry) (vs : List LogEntry) (k n : ℕ)
    (at : Places) where
  abbrev l : Log
  l = record { start = start; entries = us ++ (e ∷ f ∷ vs) }

  counted : length l.entries ≡ length us + 2 + length vs
  counted = omega (arith, length-append us (e ∷ f ∷ vs))

  next_offset :
      offsets 0 l.entries
      ≡ (offsets 0 us ++ ulong_bytes (length (images us)))
        ++ (ulong_bytes (length (images us) + length (image e))
            ++ offsets (length (images us) + length (image e) + length (image f)) vs)
  unfolding offsets
  next_offset =
      offsets-split us e (f ∷ vs)
      ∙ sym (
          append_assoc (offsets 0 us) (ulong_bytes (length (images us)))
            (offsets (length (images us) + length (image e)) (f ∷ vs)))

  ends : length (images us) + length (image e) ≤ length (images l.entries)
  ends = omega (
    arith,
    ap length (images-split us e (f ∷ vs)),
    length-append (images us) (image e ++ images (f ∷ vs)),
    length-append (image e) (images (f ∷ vs)),
  )

  load_entry-part :
      IsKept l k n
      → IsEntry e
      → (p : Places) × (load_entry (start + length us) (shape l k n at)
          ≡ (ok (some e), shape l k n p))
  unfolding load_entry File.seek check_files
  load_entry-part h v = (
    record {
      idx = 8 * length us + 8 + 8;
      dat = length (images us) + length (image e);
      sti = at.sti;
    },
    rw
        (
          le→ltb_false (start + length us) start (omega arith),
          inside,
          here,
          read_ulong-part idx (shape l k n (record at { idx = 8 * length us }))
              (offsets 0 l.entries) (8 * length us) refl (offsets 0 us)
              (offsets (length (images us) + length (image e)) (f ∷ vs)) (length (images us))
              (offsets-split us e (f ∷ vs)) (sym (length-offsets 0 us))
              (omega (arith, ends, h.bytes)),
          read_ulong-part idx (shape l k n (record at { idx = 8 * length us + 8 }))
              (offsets 0 l.entries) (8 * length us + 8) refl
              (offsets 0 us ++ ulong_bytes (length (images us)))
              (offsets (length (images us) + length (image e) + length (image f)) vs)
              (length (images us) + length (image e)) next_offset
              (omega (
                arith,
                length-append (offsets 0 us) (ulong_bytes (length (images us))),
                length-offsets 0 us,
                length-ulong_bytes (length (images us)),
              ))
              (omega (arith, ends, h.bytes)),
          read_entry-part (shape l k n (record at { idx = 8 * length us + 8 + 8 }))
              (images l.entries) (images us) (images (f ∷ vs)) e at.dat
              (length (images us) + length (image e)) v refl (images-split us e (f ∷ vs)) refl
              (omega (arith, ends, h.bytes)),
        )
        refl,
  )
    where
      inside : leb (add64 start (length l.entries)) (start + length us) ≡ false
      inside = ground (arith, counted, h.slots)

      here : mul64 (sub64 (start + length us) start) sz_ulong ≡ 8 * length us
      here = omega (arith, counted, h.slots, h.offsets)

-- What is read of entry number `i`, where another one is behind it.
module _ (k n : ℕ) (at : Places) where
  abbrev Found : ℕ → Log → Type 0
  Found i l =
      (p : Places) × (load_entry (l.start + i) (shape l k n at)
        ≡ (ok (get_elem? l.entries i), shape l k n p))

  split-Found :
      (start : ℕ) (us : List LogEntry) (e f : LogEntry) (vs : List LogEntry)
      → IsKept (record { start = start; entries = us ++ (e ∷ f ∷ vs) }) k n
      → Found (length us) (record { start = start; entries = us ++ (e ∷ f ∷ vs) })
  split-Found start us e f vs h =
      let (p, r) =
        load_entry-part start us e f vs k n at h
          (All-append IsEntry us (e ∷ f ∷ vs) h.entries).1.0 in
      (p, rw (get_elem?-append us e (f ∷ vs)) r)

  pub load_entry-Found : (l : Log) (i : ℕ) → IsKept l k n → i + 1 < length l.entries → Found i l
  load_entry-Found l i h b =
      let r = split l.entries i b in
      subst (λ es. IsKept (record l { entries = es }) k n → Found i (record l { entries = es }))
        (sym r.same)
        (λ h'.
          subst (λ j. Found j (record l { entries = r.us ++ (r.e ∷ r.f ∷ r.vs) })) r.count
            (split-Found l.start r.us r.e r.f r.vs h'))
        h

pub at-shape :
    (l : Log) (k n : ℕ) (at : Places) (index : ℕ)
    → index < 2 ^ 64
    → Memory.at (shape l k n at).buf index
      ≡ (if ltb index (l.start + k) then none else get_elem? l.entries (index - l.start))
unfolding Memory.at
at-shape l k n at index b = elim (Bool-cases (ltb index (l.start + k))) [
  | inl e ↦ ground (arith, e)
  | inr e ↦
      let j = index - (l.start + k) in
      let w : sub64 index (l.start + k) ≡ index - (l.start + k) = ground (arith, e, b) in
      elim (Bool-cases (leb (length (drop k l.entries)) j)) [
        | inl c ↦
            rw (e, w, c)
              (sym (
                get_elem?-beyond l.entries (index - l.start)
                  (ground (arith, c, e, length-drop k l.entries))))
        | inr c ↦
            rw (e, w, c)
              (get_elem?-drop k l.entries j ∙ ap (get_elem? l.entries) (ground (arith, e)))
      ]
]
