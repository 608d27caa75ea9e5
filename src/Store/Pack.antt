-- ===== src/Store/Pack.antt =====
-- fs_log_store.cxx: `pack` of log_store_buffer, which nothing calls.
use cornerstone.Common.{
  ℕ, zero, suc, ◌+◌, ◌<◌, ◌^◌, ◌≡◌, refl, Option, none, some, ltb, if◌then◌else◌, length, get_elem?,
  add64, sub64, to_ulong, arith, lt→ltb,
}
use cornerstone.Buffer.{Buffer, Result, ok, err, bad_read, size, alloc, set_pos}
use cornerstone.Codec.Entry.{LogEntry, serialize}
use cornerstone.Store.Memory.{Memory}

-- The size of an entry of the buffer in its serialized form; behind the last one the code reads memory
-- that is not its own.
unfoldable pub serialized_size : Option LogEntry → Result ℕ
serialized_size none = err bad_read
serialized_size (some e) = elim (serialize e) [ ok b ↦ ok (size b) | err x ↦ err x ]

-- One round, whose further rounds are `next`.
unfoldable pub pack_round : Result ℕ → (ℕ → Option (Result ℕ)) → Option (Result ℕ)
pack_round (err x) next = some (err x)
pack_round (ok n) next = next n

-- The loop: `offset` is counted up, and `i` is not. None says that the rounds did not suffice.
unfoldable pub pack_loop : ℕ → Memory → ℕ → ℕ → ℕ → ℕ → Option (Result ℕ)
unfolding pack_round
pack_loop zero m i offset good_cnt sz = none
pack_loop (suc fuel) m i offset good_cnt sz =
    let next = λ (n : ℕ). pack_loop fuel m i (add64 offset 1) good_cnt (add64 sz n) in
    if ltb i (add64 offset good_cnt)
    then pack_round (serialized_size (get_elem? m.entries i)) next
    else some (ok sz)

-- What is made of the sum of the sizes: a block of that size, into which nothing is put, since the
-- serialized entries are not kept.
unfoldable pub finish_pack : Option (Result ℕ) → Option (Result Buffer)
finish_pack none = none
finish_pack (some (err x)) = some (err x)
finish_pack (some (ok sz)) = some (elim (alloc sz) [ ok b ↦ ok (set_pos b 0) | err x ↦ err x ])

-- `pack`, of an int32 `cnt`.
unfoldable pub pack : ℕ → Memory → ℕ → ℕ → Option (Result Buffer)
pack fuel m start cnt =
    let offset = sub64 start m.start_idx in
    let left = sub64 (length m.entries) offset in
    let good_cnt = (if ltb left (to_ulong cnt) then left else to_ulong cnt) in
    finish_pack (pack_loop fuel m offset offset good_cnt 0)

-- Asked for an entry that is there, the loop is not done after any number of rounds that does not take
-- the counter past 64 bits.
pack_loop-endless :
    (fuel : ℕ) (m : Memory) (i offset good_cnt sz n : ℕ)
    → serialized_size (get_elem? m.entries i) ≡ ok n
    → i < offset + good_cnt
    → offset + good_cnt + fuel < 2 ^ 64
    → pack_loop fuel m i offset good_cnt sz ≡ none
unfolding pack_loop
pack_loop-endless zero m i offset good_cnt sz n e h w = refl
pack_loop-endless (suc fuel) m i offset good_cnt sz n e h w =
    rw (sum, lt→ltb i (offset + good_cnt) h, e, next)
      (pack_loop-endless fuel m i (suc offset) good_cnt (add64 sz n) n e (omega (arith, h))
        (omega (arith, w)))
  where
    sum : add64 offset good_cnt ≡ offset + good_cnt
    sum = omega (arith, w)

    next : add64 offset 1 ≡ suc offset
    next = omega (arith, w)
