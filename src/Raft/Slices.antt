-- ===== src/Raft/Slices.antt =====
-- raft_server.cxx: the entries that a leader sends to a peer.
use cornerstone.Common.{
  ℕ, zero, suc, ◌+◌, ◌-◌, ◌<◌, ◌≤◌, ◌≡◌, ◌^◌, refl, sym, ap, ◌∙◌, List, [], ◌∷◌, length, take, drop,
  length-drop, true, false, leb, arith, Bool-cases, add64, to_ulong, inl, inr, ◌⊎◌, le→ltb_false,
}
use cornerstone.Buffer
use cornerstone.Codec.Entry.{LogEntry}
use cornerstone.Log
use cornerstone.Raft.Replication.{entries_to_send, min_ulong, or_empty}

take-more : (n : ℕ) (xs : List LogEntry) → length xs ≤ n → take n xs ≡ xs
take-more zero [] h = refl
take-more zero (x ∷ xs) h = absurd (omega (arith, h))
take-more (suc n) [] h = refl
take-more (suc n) (x ∷ xs) h = ap (◌∷◌ x) (take-more n xs (omega (arith, h)))

empty_of : (xs : List LogEntry) → length xs ≡ 0 → xs ≡ []
empty_of [] h = refl
empty_of (x ∷ xs) h = absurd (omega (arith, h))

take-empty : (n : ℕ) (xs : List LogEntry) → length xs ≡ 0 → take n xs ≡ []
take-empty n xs h = take-more n xs (omega (arith, h)) ∙ empty_of xs h

-- The slice of a log, with the number of entries cut to what there is.
take-min :
    (n m : ℕ) (xs : List LogEntry)
    → (n ≡ m) ⊎ ((length xs ≤ n) × (length xs ≤ m))
    → take n xs ≡ take m xs
take-min n m xs (inl h) = ap (λ k. take k xs) h
take-min n m xs (inr (h, k)) = take-more n xs h ∙ sym (take-more m xs k)

leb→le : (a b : ℕ) → leb a b ≡ true → a ≤ b
leb→le a b h = ground (arith, h)

leb_false→lt : (a b : ℕ) → leb a b ≡ false → b < a
leb_false→lt a b h = ground (arith, h)

lt→leb_false : (a b : ℕ) → b < a → leb a b ≡ false
lt→leb_false a b h = ground (arith, h)

-- `log_entries` within the log, where the null pointer stands for no entries.
read_within :
    (log : Log.Log) (first last : ℕ)
    → log.start ≤ first
    → first < Log.next_slot log
    → Buffer.◌>>=◌ (Log.log_entries log first last) (λ es. Buffer.ok (or_empty es))
      ≡ Buffer.ok (take (last - first) (drop (first - log.start) log.entries))
unfolding Log.log_entries Log.next_slot or_empty
read_within log first last h k = elim (Bool-cases (leb last first)) [
  | inl t ↦
      rw (le→ltb_false first log.start h, t)
        (ap (λ n. Buffer.ok (take n (drop (first - log.start) log.entries)))
          (nothing (leb→le last first t)))
  | inr t ↦
      rw (le→ltb_false first log.start h, t, lt→leb_false (log.start + length log.entries) first k)
        refl
]
  where
    nothing : last ≤ first → 0 ≡ last - first
    nothing q = omega (arith, q)

module _ (log : Log.Log) (last max : ℕ) (held : log.start ≤ last + 1)
    (room : Log.next_slot log < 2 ^ 64) (small : last + 1 + max < 2 ^ 64) (int : max < 2 ^ 31) where
  cut :
      take
        (min_ulong (Log.next_slot log) (last + 1 + max) - (last + 1))
        (drop (last + 1 - log.start) log.entries)
      ≡ take max (drop (last + 1 - log.start) log.entries)
  unfolding min_ulong Log.next_slot
  cut =
      take-min _ max (drop (last + 1 - log.start) log.entries)
        (ground (arith, held, length-drop (last + 1 - log.start) log.entries))

  first_idx : add64 last 1 ≡ last + 1
  first_idx = omega (arith, small)

  end_idx : add64 (last + 1) (to_ulong max) ≡ last + 1 + max
  end_idx = ground (arith, small, int)

  none_left : Log.next_slot log ≤ last + 1 → length (drop (last + 1 - log.start) log.entries) ≡ 0
  unfolding Log.next_slot
  none_left q = omega (arith, q, length-drop (last + 1 - log.start) log.entries)

  -- The entries behind an index that the log still holds are sent from there on, in order, as many
  -- as there are but at most `max`; indexes do not pass 64 bits, and `max` is a non-negative int32.
  pub entries_to_send-slice :
      entries_to_send log last max ≡ Buffer.ok (take max (drop (last + 1 - log.start) log.entries))
  unfolding entries_to_send
  entries_to_send-slice = elim (Bool-cases (leb (Log.next_slot log) (last + 1))) [
    | inl t ↦
        rw (first_idx, t)
          (ap Buffer.ok
            (sym (take-empty max _ (none_left (leb→le (Log.next_slot log) (last + 1) t)))))
    | inr t ↦
        rw (first_idx, end_idx, t)
          (read_within log (last + 1) _ held (leb_false→lt (Log.next_slot log) (last + 1) t)
            ∙ ap Buffer.ok cut)
  ]
