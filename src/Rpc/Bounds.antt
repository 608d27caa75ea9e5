-- ===== src/Rpc/Bounds.antt =====
-- asio_service.cxx: a loop over the entries of a request that does not end.
use cornerstone.Common.{
  ℕ, zero, suc, ◌+◌, ◌<◌, ◌≡◌, ◌%◌, ◌^◌, refl, ap, true, false, ltb, ◌∙◌, List, [], ◌∷◌, ◌++◌,
  length, arith, IsU64, IsByte, append_assoc, lt→ltb, length-append, length-replicate, replicate,
  leb,
}
use cornerstone.Buffer.{
  Buffer, ok, err, endless, size, move_forward, get_buffer, ulong_bytes, int_bytes,
}
use cornerstone.Buffer.Laws.{
  cursor, Fits, Fits-next, get_ulong-cursor, get_byte-cursor, get_int-cursor, avail-cursor,
  length-ulong_bytes, length-int_bytes,
}
use cornerstone.Codec.Entry.{val_type_of}
use cornerstone.Rpc.Entries.{alloc_size}
use cornerstone.Rpc.Request.{decode_entry, decode_entries}

-- The log data that begins with the front of an entry: its term, its type and the size of its value.
abbrev pub entry_block : ℕ → ℕ → ℕ → List ℕ → Buffer
entry_block term t n rest = record {
  bytes = ulong_bytes term ++ (t ∷ (int_bytes n ++ rest));
  pos = 0;
}

big : (b : Buffer) → size b < 0x8000 → leb 0x8000 (size b) ≡ false
big b h = ground (arith, h)

-- The position behind the front goes forward and comes back to 0.
wraps :
    (b : Buffer) (n : ℕ)
    → size b < 0x8000
    → b.pos ≡ 13
    → (13 + n) % 2 ^ 16 ≡ 0
    → move_forward b n ≡ record b { pos = 0 }
unfolding move_forward
wraps b n small at h = rw (big b small, at) (ap (λ p. record b { pos = p }) (omega (arith, h)))

module _ (behind rest : List ℕ) (term t n : ℕ) (u : IsU64 term) (y : IsByte t) (few : n < 2 ^ 31)
    (over : (13 + n) % 2 ^ 16 ≡ 0) (small : 13 + length rest < 0x8000) where
  abbrev front : List ℕ
  front = ulong_bytes term ++ (t ∷ []) ++ int_bytes n

  -- The buffer for the value, and where the reading is then.
  abbrev filled : Buffer × Buffer
  filled = get_buffer behind (cursor front rest) (cursor [] (replicate n 0))

  length-front : length front ≡ 13
  unfolding ulong_bytes int_bytes
  length-front = refl

  joined : front ++ rest ≡ ulong_bytes term ++ (t ∷ (int_bytes n ++ rest))
  joined = simp append_assoc

  goes_back : filled.1 ≡ entry_block term t n rest
  unfolding get_buffer size
  goes_back =
      rw
        (
          avail-cursor [] (replicate n 0) (omega (arith, few, length-replicate {A = ℕ} n 0)),
          length-replicate {A = ℕ} n 0,
        )
        (wraps (cursor front rest) n (omega (arith, small, length-append front rest, length-front))
            length-front over
          ∙ ap (λ bs. record { bytes = bs; pos = 0 }) joined)

  -- A round of the loop reads the entry, from its bytes or from those behind the block, and is then at the
  -- front of the entry again.
  round :
      decode_entry behind (entry_block term t n rest)
      ≡ ok (
        record { term = term; val_type = val_type_of t; buf = filled.0.bytes },
        entry_block term t n rest,
      )
  unfolding decode_entry
  round =
      rw
        (
          get_ulong-cursor [] (t ∷ (int_bytes n ++ rest)) term u f1,
          get_byte-cursor (ulong_bytes term) (int_bytes n ++ rest) t y f2,
          get_int-cursor (ulong_bytes term ++ (t ∷ [])) rest n (omega (arith, few)) f3,
          alloc_size n few,
        )
        (ap (λ b. ok (record { term = term; val_type = val_type_of t; buf = filled.0.bytes }, b))
          goes_back)
    where
      f1 : Fits (0 + length (ulong_bytes term ++ (t ∷ (int_bytes n ++ rest))))
      f1 = omega (
        arith,
        small,
        length-append (ulong_bytes term) (t ∷ (int_bytes n ++ rest)),
        length-append (int_bytes n) rest,
        length-ulong_bytes term,
        length-int_bytes n,
      )

      f2 : Fits (length (ulong_bytes term) + suc (length (int_bytes n ++ rest)))
      f2 = Fits-next [] (ulong_bytes term) (t ∷ (int_bytes n ++ rest)) f1

      f3 : Fits (length (ulong_bytes term ++ (t ∷ [])) + length (int_bytes n ++ rest))
      f3 = Fits-next (ulong_bytes term) (t ∷ []) (int_bytes n ++ rest) f2

  inside : ltb 0 (size (entry_block term t n rest)) ≡ true
  unfolding size ulong_bytes
  inside = lt→ltb 0 (size (entry_block term t n rest)) (omega arith)

  -- Where an entry at the front of log data of less than 32 KB gives its value a size that brings the
  -- position, of 16 bits, from behind its front back to 0, the loop over the entries does not end: it reads
  -- the same entry again and again, whatever the bytes behind it are.
  pub decode_entries-endless :
      (fuel : ℕ) → decode_entries behind fuel (entry_block term t n rest) ≡ err endless
  unfolding decode_entries
  decode_entries-endless zero = rw inside refl
  decode_entries-endless (suc fuel) = rw (inside, round, decode_entries-endless fuel) refl
