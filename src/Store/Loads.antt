-- ===== src/Store/Loads.antt =====
-- fs_log_store.cxx: the entries of a range that have left the buffer, which log_entries reads from the
-- files.
use cornerstone.Common.{
  ℕ, zero, suc, ◌+◌, ◌-◌, ◌*◌, ◌<◌, ◌≡◌, ◌^◌, refl, sym, ap, ◌∙◌, List, [], ◌∷◌, ◌++◌, length, take,
  drop, map, arith, Option, none, some, sub64, to_int32, to_ulong, replicate, length-append,
  append_assoc, subst, All, lt_int32, true, drop-append,
}
use cornerstone.Buffer.{ok, err, bad_write, sz_ulong}
use cornerstone.Codec.Entry.{LogEntry, IsEntry, image, deserialize-image}
use cornerstone.Log.{Log}
use cornerstone.Store.File
use cornerstone.Store.File.{file}
use cornerstone.Store.State.{Store, idx, dat, read_ulong, check_files, mul64, and_then}
use cornerstone.Store.Bulk.{set_elem, load_entries, load_missing}
use cornerstone.Store.Layout.{
  part, split, images, offsets, offsets-split, images-split, images-append, length-offsets,
  All-append, read_buffer-part, read_ulong-part,
}
use cornerstone.Store.Shape.{Places, shape, IsKept}

set_elem-front :
    (done : List (Option LogEntry)) (o : Option LogEntry) (rest : List (Option LogEntry))
    (e : LogEntry)
    → set_elem (done ++ (o ∷ rest)) (length done) e ≡ ok (done ++ (some e ∷ rest))
unfolding set_elem
set_elem-front [] o rest e = refl
set_elem-front (x ∷ done) o rest e = rw (set_elem-front done o rest e) refl

module _ (l : Log) (k n : ℕ) (sti : ℕ) (h : IsKept l k n) where
  -- The store with a position in the file of the offsets and one in the data file.
  abbrev reading : ℕ → ℕ → Store
  reading i d = shape l k n (record { idx = i; dat = d; sti = sti })

  -- The offset of an entry that is there.
  pub read_offset :
      (us : List LogEntry) (e : LogEntry) (vs : List LogEntry) (d : ℕ)
      → l.entries ≡ us ++ (e ∷ vs)
      → read_ulong idx (reading (8 * length us) d)
        ≡ (ok (length (images us)), reading (8 * length us + 8) d)
  read_offset us e vs d c =
      read_ulong-part idx (reading (8 * length us) d) (offsets 0 l.entries) (8 * length us) refl
        (offsets 0 us) (offsets (length (images us) + length (image e)) vs) (length (images us))
        (ap (offsets 0) c ∙ offsets-split us e vs) (sym (length-offsets 0 us))
        (omega (
          arith,
          h.bytes,
          ap (λ es. length (images es)) c,
          ap length (images-append us (e ∷ vs)),
          length-append (images us) (images (e ∷ vs)),
        ))

  -- One round of the loop: the entry between its offset and that of the next one.
  pub load_round :
      (rounds i : ℕ) (us : List LogEntry) (e g : LogEntry) (vs : List LogEntry)
      (results : List (Option LogEntry)) (d : ℕ)
      → l.entries ≡ us ++ (e ∷ g ∷ vs)
      → load_entries (suc rounds) i (length (images us)) results (reading (8 * length us + 8) d)
        ≡ and_then (load_entries rounds (i + 1) (length (images us) + length (image e))) (
          set_elem results i e,
          reading (8 * length (us ++ (e ∷ [])) + 8) (length (images us) + length (image e)),
        )
  unfolding load_entries File.seek images
  load_round rounds i us e g vs results d c =
      rw
        (
          offset,
          size,
          read_buffer-part dat (reading (8 * length us' + 8) (length (images us)))
              (images l.entries) (length (images us)) refl (images us) (image e) (images (g ∷ vs))
              (length (image e)) (ap images c ∙ images-split us e (g ∷ vs)) refl refl fits,
          deserialize-image [] e v (omega (arith, fits)),
        )
        refl
    where
      us' : List LogEntry
      us' = us ++ (e ∷ [])

      total :
          length (images us) + length (image e) + length (images (g ∷ vs))
          ≡ length (images l.entries)
      total = omega (
        arith,
        ap length (ap images c ∙ images-split us e (g ∷ vs)),
        length-append (images us) (image e ++ images (g ∷ vs)),
        length-append (image e) (images (g ∷ vs)),
      )

      fits : length (image e) < 2 ^ 31
      fits = omega (arith, total, h.bytes)

      v : IsEntry e
      v = (All-append IsEntry us (e ∷ g ∷ vs) (subst (All IsEntry) c h.entries)).1.0

      start : length (images us') ≡ length (images us) + length (image e)
      start = omega (
        arith,
        ap length (images-append us (e ∷ [])),
        length-append (images us) (images (e ∷ [])),
        length-append (image e) [],
      )

      offset :
          read_ulong idx (reading (8 * length us + 8) d)
          ≡ (ok (length (images us) + length (image e)), reading (8 * length us' + 8) d)
      offset =
          ap (λ i. read_ulong idx (reading i d)) (omega (arith, length-append us (e ∷ [])))
          ∙ read_offset us' g vs d (c ∙ sym (append_assoc us (e ∷ []) (g ∷ vs)))
          ∙ ap (λ b. (ok b, reading (8 * length us' + 8) d)) start

      size :
          to_ulong (to_int32 (sub64 (length (images us) + length (image e)) (length (images us))))
          ≡ length (image e)
      size = ground (arith, total, h.bytes)

  -- A round that finds room for its entry.
  load_next :
      (rounds : ℕ) (us : List LogEntry) (e g : LogEntry) (vs : List LogEntry)
      (done rest : List (Option LogEntry)) (d : ℕ)
      → l.entries ≡ us ++ (e ∷ g ∷ vs)
      → load_entries
          (suc rounds)
          (length done)
          (length (images us))
          (done ++ (none ∷ rest))
          (reading (8 * length us + 8) d)
        ≡ load_entries rounds
            (length (done ++ (some e ∷ [])))
            (length (images (us ++ (e ∷ []))))
            ((done ++ (some e ∷ [])) ++ rest)
            (reading (8 * length (us ++ (e ∷ [])) + 8) (length (images us) + length (image e)))
  unfolding images
  load_next rounds us e g vs done rest d c =
      load_round rounds (length done) us e g vs (done ++ (none ∷ rest)) d c
      ∙ rw (set_elem-front done none rest e) (λ i.
        load_entries rounds (counted i) (start i) (sym (append_assoc done (some e ∷ []) rest) i)
          (reading (8 * length (us ++ (e ∷ [])) + 8) (length (images us) + length (image e))))
    where
      counted : length done + 1 ≡ length (done ++ (some e ∷ []))
      counted = omega (arith, length-append done (some e ∷ []))

      start : length (images us) + length (image e) ≡ length (images (us ++ (e ∷ [])))
      start = omega (
        arith,
        ap length (images-append us (e ∷ [])),
        length-append (images us) (images (e ∷ [])),
        length-append (image e) [],
      )

  load_none :
      (results : List (Option LogEntry)) (i data_start : ℕ) (s : Store)
      → load_entries zero i data_start results s ≡ (ok results, s)
  unfolding load_entries
  load_none results i data_start s = refl

  -- The loop, up to an entry that has another one behind it.
  load_entries-part :
      (rounds : ℕ) (us vs : List LogEntry) (done tail : List (Option LogEntry)) (d : ℕ)
      → l.entries ≡ us ++ vs
      → rounds < length vs
      → (p : Places) × (load_entries rounds
            (length done)
            (length (images us))
            (done ++ (replicate rounds none ++ tail))
            (reading (8 * length us + 8) d)
          ≡ (ok (done ++ (map some (take rounds vs) ++ tail)), shape l k n p))
  load_entries-part zero us vs done tail d c b = (
    record { idx = 8 * length us + 8; dat = d; sti = sti },
    load_none (done ++ tail) (length done) (length (images us)) (reading (8 * length us + 8) d),
  )
  load_entries-part (suc rounds) us [] done tail d c b = absurd (omega (arith, b))
  load_entries-part (suc rounds) us (e ∷ []) done tail d c b = absurd (omega (arith, b))
  load_entries-part (suc rounds) us (e ∷ g ∷ vs) done tail d c b =
      let (p, r) =
        load_entries-part rounds (us ++ (e ∷ [])) (g ∷ vs) (done ++ (some e ∷ [])) tail
          (length (images us) + length (image e)) (c ∙ sym (append_assoc us (e ∷ []) (g ∷ vs)))
          (omega (arith, b)) in
      (
        p,
        load_next rounds us e g vs done (replicate rounds none ++ tail) d c
            ∙ r
            ∙ ap (λ es. (ok es, shape l k n p))
                (append_assoc done (some e ∷ []) (map some (take rounds (g ∷ vs)) ++ tail)),
      )

module _ (l : Log) (k n : ℕ) (at : Places) (h : IsKept l k n) where
  -- What is loaded of the entries from number `j` on that come before the buffer.
  abbrev Loads : ℕ → List (Option LogEntry) → Type 0
  Loads j tail =
      (p : Places) × (load_missing j (l.start + k) (replicate (k - j) none ++ tail) (shape l k n at)
        ≡ (ok (map some (take (k - j) (drop j l.entries)) ++ tail), shape l k n p))

  split-Loads :
      (us : List LogEntry) (e : LogEntry) (vs : List LogEntry) (tail : List (Option LogEntry))
      → l.entries ≡ us ++ (e ∷ vs)
      → length us < k
      → Loads (length us) tail
  unfolding load_missing File.seek check_files
  split-Loads us e vs tail c b =
      let (p, r) =
        load_entries-part l k n at.sti h (k - length us) us (e ∷ vs) [] tail at.dat c rest in
      (p, rw (here, read_offset l k n at.sti h us e vs at.dat c, count, positive, behind) r)
    where
      rest : k - length us < length (e ∷ vs)
      rest = omega (arith, b, ap length c, length-append us (e ∷ vs), h.first, h.last)

      here : mul64 (length us) sz_ulong ≡ 8 * length us
      here = omega (arith, b, h.first, h.offsets)

      count : to_int32 (sub64 (sub64 (l.start + k) l.start) (length us)) ≡ k - length us
      count = ground (arith, b, h.first, h.offsets, h.slots)

      positive : lt_int32 0 (k - length us) ≡ true
      positive = ground (arith, b, h.first, h.offsets)

      behind : drop (length us) l.entries ≡ e ∷ vs
      behind = ap (drop (length us)) c ∙ drop-append us (e ∷ vs)

  pub load_missing-part : (j : ℕ) (tail : List (Option LogEntry)) → j < k → Loads j tail
  load_missing-part j tail b =
      let r = part l.entries j (omega (arith, b, h.first)) in
      subst (λ i. Loads i tail) r.count
        (split-Loads r.us r.e r.vs tail r.same (omega (arith, b, r.count)))

  -- Without room for the first entry, the loop writes behind the end of the results.
  split-Crash :
      (us : List LogEntry) (e g : LogEntry) (vs : List LogEntry)
      → l.entries ≡ us ++ (e ∷ g ∷ vs)
      → length us < k
      → (load_missing (length us) (l.start + k) [] (shape l k n at)).0 ≡ err bad_write
  unfolding load_missing File.seek check_files set_elem
  split-Crash us e g vs c b =
      rw
        (
          here,
          read_offset l k n at.sti h us e (g ∷ vs) at.dat c,
          count,
          positive,
          (let q : k - length us ≡ suc (k - length us - 1) = omega (arith, b) in q),
          load_round l k n at.sti h (k - length us - 1) 0 us e g vs [] at.dat c,
        )
        refl
    where
      here : mul64 (length us) sz_ulong ≡ 8 * length us
      here = omega (arith, b, h.first, h.offsets)

      count : to_int32 (sub64 (sub64 (l.start + k) l.start) (length us)) ≡ k - length us
      count = ground (arith, b, h.first, h.offsets, h.slots)

      positive : lt_int32 0 (k - length us) ≡ true
      positive = ground (arith, b, h.first, h.offsets)

  pub load_missing-Crash :
      (j : ℕ) → j < k → (load_missing j (l.start + k) [] (shape l k n at)).0 ≡ err bad_write
  load_missing-Crash j b =
      let r = split l.entries j (omega (arith, b, h.first, h.last)) in
      subst (λ i. (load_missing i (l.start + k) [] (shape l k n at)).0 ≡ err bad_write) r.count
        (split-Crash r.us r.e r.f r.vs r.same (omega (arith, b, r.count)))
