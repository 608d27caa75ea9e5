-- ===== src/Store/Refine.antt =====
-- fs_log_store.cxx: the store answers as the log that it keeps.
use cornerstone.Common.{
  ℕ, zero, suc, ◌+◌, ◌-◌, ◌<◌, ◌≤◌, ◌≡◌, ◌^◌, refl, ap, ◌∙◌, List, [], ◌∷◌, length, arith, true,
  none, Bool-cases, Option-cases, inl, inr, ltb, leb, add64, get_elem?, lt→ltb, le→ltb_false,
}
use cornerstone.Buffer.{Result, ok, err, range_error}
use cornerstone.Log
use cornerstone.Log.{Log}
use cornerstone.Store.State.{Store, check_files}
use cornerstone.Store.Ops
use cornerstone.Store.Ops.{load_entry, load_term}
use cornerstone.Store.Shape.{Places, shape, IsKept, Keeps}
use cornerstone.Store.Reads.{load_entry-Found, at-shape}

get_elem?-none : {A : Type 0} (xs : List A) (i : ℕ) → get_elem? xs i ≡ none → length xs ≤ i
get_elem?-none [] i h = omega arith
get_elem?-none (x ∷ xs) zero h = absurd cc
get_elem?-none (x ∷ xs) (suc i) h = omega (arith, get_elem?-none xs i h)

-- How an operation ends: with the answer, in a store that keeps the log as before, up to the positions
-- of the files.
abbrev pub Answers : {A : Type 0} → Log → ℕ → ℕ → Result A → Result A × Store → Type 0
Answers l k n a r = (p : Places) × (r ≡ (a, shape l k n p))

module _ (l : Log) (k n : ℕ) (at : Places) (index : ℕ) where
  load_entry_below :
      index < l.start → load_entry index (shape l k n at) ≡ (err range_error, shape l k n at)
  unfolding load_entry
  load_entry_below h = rw (lt→ltb index l.start h) refl

  load_entry_beyond :
      IsKept l k n
      → l.start + length l.entries ≤ index
      → load_entry index (shape l k n at) ≡ (ok none, shape l k n at)
  unfolding load_entry check_files
  load_entry_beyond h b = rw (le→ltb_false index l.start (omega (arith, b)), beyond) refl
    where
      beyond : leb (add64 l.start (length l.entries)) index ≡ true
      beyond = ground (arith, h.slots, b)

  pub entry_at-shape :
      IsKept l k n
      → index < 2 ^ 64
      → Answers l k n (Log.entry_at l index) (Ops.entry_at index (shape l k n at))
  unfolding Ops.entry_at Ops.or_load Log.entry_at
  entry_at-shape h b = elim (Bool-cases (ltb index l.start)) [
    | inl e ↦ (
      at,
      rw
          (
            at-shape l k n at index b,
            lt→ltb index (l.start + k) (ground (arith, e)),
            e,
            load_entry_below (ground (arith, e)),
          )
          refl,
    )
    | inr e ↦ elim (Bool-cases (ltb index (l.start + k))) [
      | inl c ↦
          let (p, r) =
            load_entry-Found k n at l (index - l.start) h (ground (arith, c, e, h.last, h.first)) in
          (
            p,
            rw (at-shape l k n at index b, c, e)
                (ap (λ i. load_entry i (shape l k n at)) (ground (arith, e)) ∙ r),
          )
      | inr c ↦ elim (Option-cases (get_elem? l.entries (index - l.start))) [
        | inl d ↦ (
          at,
          rw
              (
                at-shape l k n at index b,
                c,
                e,
                d,
                load_entry_beyond h
                    (ground (arith, e, get_elem?-none l.entries (index - l.start) d)),
              )
              refl,
        )
        | inr (a, d) ↦ (at, rw (at-shape l k n at index b, c, e, d) refl)
      ]
    ]
  ]

-- From the shape of a store to a store that keeps a log.
pub Keeps-Answers :
    {A : Type 0} (op : Store → Result A × Store) (s : Store) (l : Log) (a : Result A)
    → (h : Keeps s l) → Answers l h.first h.size a (op (shape l h.first h.size h.places))
    → ((op s).0 ≡ a) × Keeps (op s).1 l
Keeps-Answers op s l a h (p, r) = (
  ap (λ x. (op x).0) h.same ∙ ap (λ x. x.0) r,
  record {
    first = h.first;
    size = h.size;
    places = p;
    same = ap (λ x. (op x).1) h.same ∙ ap (λ x. x.1) r;
    kept = h.kept;
  },
)

-- A store that keeps a log finds the entries of the log, in its buffer or in its files: at every index
-- of an ulong it answers as the log does, with the entry, the null pointer behind the last one or the
-- error below the first one, and it still keeps the log.
pub entry_at-Keeps :
    (s : Store) (l : Log) (index : ℕ)
    → Keeps s l
    → index < 2 ^ 64
    → ((Ops.entry_at index s).0 ≡ Log.entry_at l index) × Keeps (Ops.entry_at index s).1 l
entry_at-Keeps s l index h b =
    Keeps-Answers (Ops.entry_at index) s l (Log.entry_at l index) h
      (entry_at-shape l h.first h.size h.places index h.kept b)
