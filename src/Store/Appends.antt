-- ===== src/Store/Appends.antt =====
-- fs_log_store.cxx: append adds an entry to the log that the store keeps.
use cornerstone.Common.{
  ℕ, zero, suc, ◌+◌, ◌-◌, ◌*◌, ◌<◌, ◌≤◌, ◌≡◌, ◌^◌, refl, ap, ◌∙◌, List, [], ◌∷◌, ◌++◌, length, drop,
  arith, All, Bool-cases, inl, inr, append-nil, ltb, sub64, add64, length-append, length-drop,
  if◌then◌else◌,
}
use cornerstone.Buffer.{ok, ulong_bytes}
use cornerstone.Codec.Entry.{LogEntry, image, IsEntry, serialize-image}
use cornerstone.Log
use cornerstone.Log.{Log}
use cornerstone.Store.File
use cornerstone.Store.File.{File, file}
use cornerstone.Store.Memory
use cornerstone.Store.Memory.{Memory}
use cornerstone.Store.State.{Store, idx, dat, check_files}
use cornerstone.Store.Ops
use cornerstone.Store.Layout.{images, offsets, offsets-append, images-append}
use cornerstone.Store.Shape.{Places, shape, IsKept, Keeps}
use cornerstone.Store.Writes.{write_buffer-end, write_ulong-end}

All-snoc :
    {A : Type 0} (P : A → Type 0) (xs : List A) (a : A) → All P xs → P a → All P (xs ++ (a ∷ []))
All-snoc P [] a h p = (p, tt)
All-snoc P (x ∷ xs) a (q, h) p = (q, All-snoc P xs a h p)

pub images_snoc :
    (es : List LogEntry) (e : LogEntry) → images (es ++ (e ∷ [])) ≡ images es ++ image e
unfolding images
images_snoc es e = images-append es (e ∷ []) ∙ ap (◌++◌ (images es)) (append-nil (image e))

pub offsets_snoc :
    (es : List LogEntry) (e : LogEntry)
    → offsets 0 (es ++ (e ∷ [])) ≡ offsets 0 es ++ ulong_bytes (length (images es))
unfolding offsets
offsets_snoc es e =
    offsets-append 0 es (e ∷ [])
    ∙ ap (◌++◌ (offsets 0 es))
        (append-nil (ulong_bytes (0 + length (images es))) ∙ ap ulong_bytes (omega arith))

module _ (k n : ℕ) (start : ℕ) (es : List LogEntry) (e : LogEntry) where
  abbrev pub memory : ℕ → List LogEntry → Memory
  memory j xs = record { start_idx = start + j; entries = drop j xs; max_size = n }

  -- Where the buffer begins after an append.
  abbrev pub next_first : ℕ
  next_first = if ltb n (length es - k + 1) then suc k else k

  drop-snoc :
      (j : ℕ) (xs : List LogEntry) → j ≤ length xs → drop j xs ++ (e ∷ []) ≡ drop j (xs ++ (e ∷ []))
  drop-snoc zero xs h = refl
  drop-snoc (suc j) [] h = absurd (omega (arith, h))
  drop-snoc (suc j) (x ∷ xs) h = drop-snoc j xs (omega (arith, h))

  drop-one : (j : ℕ) (xs : List LogEntry) → drop 1 (drop j xs) ≡ drop (suc j) xs
  drop-one zero xs = refl
  drop-one (suc j) [] = refl
  drop-one (suc j) (x ∷ xs) = drop-one j xs

  pub append-memory :
      k ≤ length es
      → start + k + 1 < 2 ^ 64
      → Memory.append (memory k es) e ≡ memory next_first (es ++ (e ∷ []))
  unfolding Memory.append Memory.evict
  append-memory h b = elim (Bool-cases (ltb n (length es - k + 1))) [
    | inl c ↦ rw (drop-snoc k es h, count, c, drop-one k (es ++ (e ∷ [])), number) refl
    | inr c ↦ rw (drop-snoc k es h, count, c) refl
  ]
    where
      count : length (drop k (es ++ (e ∷ []))) ≡ length es - k + 1
      count = omega (arith, h, length-drop k (es ++ (e ∷ [])), length-append es (e ∷ []))

      number : add64 (start + k) 1 ≡ start + suc k
      number = omega (arith, b)

  -- The buffer holds the last entries still.
  pub append-IsKept :
      All IsEntry es
      → k ≤ length es
      → length es ≤ n + k
      → 0 < n
      → n < 2 ^ 31
      → IsEntry e
      → start + length es + 1 < 2 ^ 64
      → 8 * length es + 8 < 2 ^ 31
      → length (images es) + length (image e) < 2 ^ 31
      → IsKept (record { start = start; entries = es ++ (e ∷ []) }) next_first n
  append-IsKept entries first window size max v a b c = record {
    entries = All-snoc IsEntry es e entries v;
    slots = omega (arith, count, a);
    offsets = omega (arith, count, b);
    bytes = omega (arith, c, data_count);
    first = ground (arith, count, first, size);
    last = λ _. ground (arith, count, first, size);
    window = ground (arith, count, window, first);
    size = size;
    max = max;
  }
    where
      count : length (es ++ (e ∷ [])) ≡ length es + 1
      count = omega (arith, length-append es (e ∷ []))

      data_count : length (images (es ++ (e ∷ []))) ≡ length (images es) + length (image e)
      data_count = ap length (images_snoc es e) ∙ length-append (images es) (image e)

  abbrev grown : Log
  grown = record { start = start; entries = es ++ (e ∷ []) }

  append-shape :
      (at : Places)
      → IsKept (record { start = start; entries = es }) k n
      → IsEntry e
      → start + length es + 1 < 2 ^ 64
      → Ops.append e (shape (record { start = start; entries = es }) k n at) ≡ (
        ok (start + length es),
        shape grown next_first n (record {
          idx = length (offsets 0 es) + 8;
          dat = length (images es) + length (image e);
          sti = at.sti;
        }),
      )
  unfolding Ops.append File.seek_end File.seek File.tell check_files
  append-shape at h v a =
      rw
        (
          serialize-image e v.fits,
          write_ulong-end idx before (offsets 0 es) (length (offsets 0 es)) refl refl
              (length (images es)),
          write_buffer-end dat between (images es) (length (images es)) refl refl (image e),
          append-memory h.first (omega (arith, h.first, a)),
          ← offsets_snoc es e,
          ← images_snoc es e,
          counted,
          numbered,
        )
        refl
    where
      before : Store
      before =
          shape (record { start = start; entries = es }) k n
            (record { idx = length (offsets 0 es); dat = length (images es); sti = at.sti })

      between : Store
      between = record before {
        idx_file =
            file (offsets 0 es ++ ulong_bytes (length (images es))) (length (offsets 0 es) + 8);
      }

      counted : add64 (length es) 1 ≡ length (es ++ (e ∷ []))
      counted = omega (arith, length-append es (e ∷ []), a)

      numbered : sub64 (add64 start (length (es ++ (e ∷ [])))) 1 ≡ start + length es
      numbered = ground (arith, length-append es (e ∷ []), a)

-- Appending an entry to a store that keeps a log returns the next slot, and the store then keeps the log
-- with the entry behind the others, in its files and in its buffer. The entry can be serialized, and
-- there is room: the slot fits an ulong, and both files stay below 2 GB.
pub append-Keeps :
    (s : Store) (l : Log) (e : LogEntry)
    → Keeps s l
    → IsEntry e
    → Log.next_slot l + 1 < 2 ^ 64
    → 8 * length l.entries + 8 < 2 ^ 31
    → length (images l.entries) + length (image e) < 2 ^ 31
    → ((Ops.append e s).0 ≡ ok (Log.next_slot l)) × Keeps (Ops.append e s).1 (Log.append l e)
unfolding Log.next_slot Log.append
append-Keeps s l e h v a b c =
    let r = append-shape h.first h.size l.start l.entries e h.places h.kept v a in
    (
      ap (λ x. (Ops.append e x).0) h.same ∙ ap (λ x. x.0) r,
      record {
        first = next_first h.first h.size l.start l.entries e;
        size = h.size;
        places = _;
        same = ap (λ x. (Ops.append e x).1) h.same ∙ ap (λ x. x.1) r;
        kept =
            append-IsKept h.first h.size l.start l.entries e h.kept.entries h.kept.first
              h.kept.window h.kept.size h.kept.max v a b c;
      },
    )
