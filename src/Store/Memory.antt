-- ===== src/Store/Memory.antt =====
-- fs_log_store.cxx: log_store_buffer, the last entries of the store in memory.
use cornerstone.Common.{
  ℕ, zero, suc, ◌-◌, ◌%◌, ◌^◌, List, [], ◌∷◌, ◌++◌, length, take, drop, replicate, ◌||◌, ltb, leb,
  if◌then◌else◌, Option, none, some, get_elem?, add64, sub64, to_int32, lt_int32,
}
use cornerstone.Buffer.{Result, ok, err, ◌>>=◌, bad_read}
use cornerstone.Codec.Entry.{LogEntry}

pub record Memory : Type 0 where
  pub start_idx : ℕ
  pub entries : List LogEntry
  pub max_size : ℕ

unfoldable pub new : ℕ → ℕ → Memory
new start_idx max_size = record { start_idx = start_idx; entries = []; max_size = max_size }

unfoldable pub last_idx : Memory → ℕ
last_idx m = add64 m.start_idx (length m.entries)

unfoldable pub first_idx : Memory → ℕ
first_idx m = m.start_idx

unfoldable pub last_elem : List LogEntry → Option LogEntry
last_elem [] = none
last_elem (e ∷ []) = some e
last_elem (e ∷ f ∷ es) = last_elem (f ∷ es)

-- `last_entry`, or the null pointer.
unfoldable pub last_entry : Memory → Option LogEntry
unfolding last_elem
last_entry m = last_elem m.entries

-- `operator[]`
unfoldable pub at : Memory → ℕ → Option LogEntry
at m idx =
    let idx_within_buf = sub64 idx m.start_idx in
    if leb (length m.entries) idx_within_buf || ltb idx m.start_idx
    then none
    else get_elem? m.entries idx_within_buf

-- `push_back`; where there is no such element, the code reads behind the vector.
unfoldable pub push :
    Option LogEntry → Result (List (Option LogEntry)) → Result (List (Option LogEntry))
push none rest = err bad_read
push (some e) rest = rest >>= λ r. ok (some e ∷ r)

-- `count` elements from `offset` on.
unfoldable pub slice : List LogEntry → ℕ → ℕ → Result (List (Option LogEntry))
unfolding push
slice es offset zero = ok []
slice es offset (suc count) = push (get_elem? es offset) (slice es (suc offset) count)

-- The rounds of a loop up to an int.
abbrev rounds : ℕ → ℕ
rounds n = if lt_int32 0 n then n else 0

-- `fill`: the entries of [first, last), null pointers for the ones that come before the buffer, and
-- the first index of the buffer. The offset is an int.
unfoldable pub fill : Memory → ℕ → ℕ → Result (ℕ × List (Option LogEntry))
unfolding slice
fill m first last =
    let offset = to_int32 (sub64 first m.start_idx) in
    if ltb last m.start_idx
    then ok (m.start_idx, [])
    else if lt_int32 0 offset
    then (slice m.entries offset (rounds (to_int32 (sub64 last first))) >>= λ r.
        ok (m.start_idx, r))
    else slice m.entries 0 (rounds (to_int32 (sub64 last m.start_idx))) >>= λ r.
        ok (m.start_idx, replicate (rounds ((2 ^ 32 - offset) % 2 ^ 32)) none ++ r)

unfoldable pub term_of : Option LogEntry → Result ℕ
term_of none = err bad_read
term_of (some e) = ok e.term

unfoldable pub get_term : Memory → ℕ → Result ℕ
unfolding term_of
get_term m index =
    if ltb index m.start_idx || leb (add64 m.start_idx (length m.entries)) index
    then ok 0
    else term_of (get_elem? m.entries (to_int32 (sub64 index m.start_idx)))

-- `trim`: without the entries from an index on.
unfoldable pub trim : Memory → ℕ → Memory
trim m start =
    if ltb start m.start_idx
    then m
    else let index = sub64 start m.start_idx in
      if ltb index (length m.entries) then record m { entries = take index m.entries } else m

-- The end of `append`: at most `max_size` entries stay.
unfoldable pub evict : Memory → Memory
evict m =
    if ltb m.max_size (length m.entries)
    then record m { entries = drop 1 m.entries; start_idx = add64 m.start_idx 1 }
    else m

unfoldable pub append : Memory → LogEntry → Memory
unfolding evict
append m e = evict (record m { entries = m.entries ++ (e ∷ []) })

unfoldable pub reset : Memory → ℕ → Memory
reset m start_idx = record m { entries = []; start_idx = start_idx }
