-- ===== src/Store/Terms.antt =====
-- fs_log_store.cxx: the terms and the entries that a store tells are those of the log that it keeps.
use cornerstone.Common.{
  if◌then◌else◌, ℕ, zero, suc, ◌+◌, ◌-◌, ◌*◌, ◌<◌, ◌≤◌, ◌≡◌, refl, sym, ap, ◌∙◌, List, [], ◌∷◌,
  ◌++◌, length, drop, arith, true, false, some, Bool-cases, inl, inr, ltb, leb, sub64, add64,
  to_int32, to_ulong, get_elem?, length-append, length-drop, append_assoc, subst, lt→ltb,
  le→ltb_false,
}
use cornerstone.Buffer.{ok, err, range_error, sz_ulong, ulong_bytes}
use cornerstone.Codec.Entry.{LogEntry, image, val_type_byte, IsEntry}
use cornerstone.Log
use cornerstone.Log.{Log}
use cornerstone.Store.File
use cornerstone.Store.Memory
use cornerstone.Store.State.{Store, idx, dat, check_files, mul64}
use cornerstone.Store.Ops
use cornerstone.Store.Ops.{load_entry, load_term}
use cornerstone.Store.Layout.{
  images, offsets, offsets-split, images-split, length-offsets, read_ulong-part, split,
  get_elem?-append, get_elem?-drop, All-append,
}
use cornerstone.Store.Shape.{Places, shape, IsKept, Keeps}
use cornerstone.Store.Refine.{Answers, Keeps-Answers}

module _ (start : ℕ) (us : List LogEntry) (e f : LogEntry) (vs : List LogEntry) (k n : ℕ)
    (at : Places) where
  abbrev l : Log
  l = record { start = start; entries = us ++ (e ∷ f ∷ vs) }

  counted : length l.entries ≡ length us + 2 + length vs
  counted = omega (arith, length-append us (e ∷ f ∷ vs))

  ends : length (images us) + length (image e) ≤ length (images l.entries)
  ends = omega (
    arith,
    ap length (images-split us e (f ∷ vs)),
    length-append (images us) (image e ++ images (f ∷ vs)),
    length-append (image e) (images (f ∷ vs)),
  )

  term_part :
      images l.entries
      ≡ images us ++ (ulong_bytes e.term ++ ((val_type_byte e.val_type ∷ e.buf) ++ images (f ∷ vs)))
  unfolding image
  term_part =
      images-split us e (f ∷ vs)
      ∙ ap (◌++◌ (images us))
          (append_assoc (ulong_bytes e.term) (val_type_byte e.val_type ∷ e.buf) (images (f ∷ vs)))

  load_term-part :
      IsKept l k n
      → IsEntry e
      → Answers l k n (ok e.term) (load_term (start + length us) (shape l k n at))
  unfolding load_term File.seek check_files
  load_term-part h v = (
    record { idx = 8 * length us + 8; dat = length (images us) + 8; sti = at.sti },
    rw
        (
          le→ltb_false (start + length us) start (omega arith),
          here,
          read_ulong-part idx (shape l k n (record at { idx = 8 * length us }))
              (offsets 0 l.entries) (8 * length us) refl (offsets 0 us)
              (offsets (length (images us) + length (image e)) (f ∷ vs)) (length (images us))
              (offsets-split us e (f ∷ vs)) (sym (length-offsets 0 us))
              (omega (arith, ends, h.bytes)),
          read_ulong-part dat
              (shape l k n
                (record { idx = 8 * length us + 8; dat = length (images us); sti = at.sti }))
              (images l.entries) (length (images us)) refl (images us)
              ((val_type_byte e.val_type ∷ e.buf) ++ images (f ∷ vs)) e.term term_part refl v.term,
        )
        refl,
  )
    where
      here : mul64 (to_ulong (to_int32 (sub64 (start + length us) start))) sz_ulong ≡ 8 * length us
      here = ground (arith, counted, h.slots, h.offsets)

module _ (k n : ℕ) (at : Places) where
  abbrev Told : ℕ → Log → Type 0
  Told i l =
      Answers l k n (Log.term_of (get_elem? l.entries i)) (load_term (l.start + i) (shape l k n at))

  split-Told :
      (start : ℕ) (us : List LogEntry) (e f : LogEntry) (vs : List LogEntry)
      → IsKept (record { start = start; entries = us ++ (e ∷ f ∷ vs) }) k n
      → Told (length us) (record { start = start; entries = us ++ (e ∷ f ∷ vs) })
  unfolding Log.term_of
  split-Told start us e f vs h =
      let (p, r) =
        load_term-part start us e f vs k n at h
          (All-append IsEntry us (e ∷ f ∷ vs) h.entries).1.0 in
      (p, rw (get_elem?-append us e (f ∷ vs)) r)

  load_term-Told : (l : Log) (i : ℕ) → IsKept l k n → i + 1 < length l.entries → Told i l
  load_term-Told l i h b =
      let r = split l.entries i b in
      subst (λ es. IsKept (record l { entries = es }) k n → Told i (record l { entries = es }))
        (sym r.same)
        (λ h'.
          subst (λ j. Told j (record l { entries = r.us ++ (r.e ∷ r.f ∷ r.vs) })) r.count
            (split-Told l.start r.us r.e r.f r.vs h'))
        h

pub get_elem?-within :
    {A : Type 0} (xs : List A) (i : ℕ) → i < length xs → (a : A) × (get_elem? xs i ≡ some a)
get_elem?-within [] i h = absurd (omega (arith, h))
get_elem?-within (x ∷ xs) zero h = (x, refl)
get_elem?-within (x ∷ xs) (suc i) h = get_elem?-within xs i (omega (arith, h))

module _ (l : Log) (k n : ℕ) (at : Places) (index : ℕ) where
  get_term-shape :
      IsKept l k n
      → l.start + k ≤ index
      → index < l.start + length l.entries
      → Memory.get_term (shape l k n at).buf index
        ≡ Log.term_of (get_elem? l.entries (index - l.start))
  unfolding Memory.get_term Memory.term_of Log.term_of
  get_term-shape h b c =
      let (a, e) = get_elem?-within l.entries (index - l.start) (omega (arith, b, c)) in
      rw (lt_lem, le_lem, inside, get_elem?-drop k l.entries (index - (l.start + k)), number, e)
        refl
    where
      lt_lem : ltb index (l.start + k) ≡ false
      lt_lem = ground (arith, b)

      le_lem : leb (add64 (l.start + k) (length (drop k l.entries))) index ≡ false
      le_lem = ground (arith, c, h.slots, h.first, length-drop k l.entries)

      inside : to_int32 (sub64 index (l.start + k)) ≡ index - (l.start + k)
      inside = ground (arith, b, c, h.slots, h.offsets)

      number : index - (l.start + k) + k ≡ index - l.start
      number = omega (arith, b)

  load_term_below :
      index < l.start → load_term index (shape l k n at) ≡ (err range_error, shape l k n at)
  unfolding load_term
  load_term_below h = rw (lt→ltb index l.start h) refl

  term_at-shape :
      IsKept l k n
      → index < l.start + length l.entries
      → Answers l k n (Log.term_at l index) (Ops.term_at index (shape l k n at))
  unfolding Ops.term_at Log.term_at Memory.first_idx Memory.last_idx
  term_at-shape h c = elim (Bool-cases (ltb index l.start)) [
    | inl e ↦ (
      at,
      rw (lt→ltb index (l.start + k) (ground (arith, e)), e, load_term_below (ground (arith, e)))
          refl,
    )
    | inr e ↦ elim (Bool-cases (ltb index (l.start + k))) [
      | inl d ↦
          let (p, r) =
            load_term-Told k n at l (index - l.start) h (ground (arith, d, e, h.last, h.first)) in
          (p, rw (d, e) (ap (λ i. load_term i (shape l k n at)) (ground (arith, e)) ∙ r))
      | inr d ↦
          (at, rw (d, e, inside (ground (arith, d)), get_term-shape h (ground (arith, d)) c) refl)
    ]
  ]
    where
      inside :
          l.start + k ≤ index → ltb index (add64 (l.start + k) (length (drop k l.entries))) ≡ true
      inside d = ground (arith, d, c, h.slots, h.first, length-drop k l.entries)

-- Asked for the term at an index below the next slot, a store that keeps a log tells that of the entry,
-- from its buffer or from the front of the entry in its files; below its start it throws a range error,
-- where log_store.hxx documents the term 0. It still keeps the log.
pub term_at-Keeps :
    (s : Store) (l : Log) (index : ℕ)
    → Keeps s l
    → index < Log.next_slot l
    → ((Ops.term_at index s).0 ≡ (
        if ltb index l.start
        then err range_error
        else Log.term_of (get_elem? l.entries (index - l.start))))
      × Keeps (Ops.term_at index s).1 l
unfolding Log.next_slot Log.term_at
term_at-Keeps s l index h b =
    Keeps-Answers (Ops.term_at index) s l (Log.term_at l index) h
      (term_at-shape l h.first h.size h.places index h.kept b)
