-- ===== src/Rpc/Entries.antt =====
-- asio_service.cxx: the log entries of a request as they are sent and read.
use cornerstone.Common.{
  ℕ, zero, suc, ◌+◌, ◌<◌, ◌≡◌, ◌^◌, ◌%◌, refl, ap, ◌∙◌, List, [], ◌∷◌, ◌++◌, length, arith,
  to_ulong, IsU64, All, append-nil, append_assoc, length-append, replicate, lt→ltb, le→ltb_false,
}
use cornerstone.Buffer.{
  ok, alloc, size, put_ulong, put_byte, put_int, put_buffer, ulong_bytes, int_bytes, data_of,
}
use cornerstone.Buffer.Laws.{
  cursor, Fits, Fits-next, flat, alloc-puts, alloc_lem, get_ulong-cursor, get_byte-cursor,
  get_int-cursor, length-ulong_bytes, length-int_bytes,
}
use cornerstone.Buffer.Gets.{get_buffer-cursor}
use cornerstone.Codec.Entry.{
  LogEntry, val_type_byte, IsNamed, val_type_of-val_type_byte, val_type_byte-IsByte,
}
use cornerstone.Codec.Config.{cursors}
use cornerstone.Rpc.Request.{encode_entry, encode_entries, decode_entry, decode_entries}

-- The bytes of an entry on the wire.
abbrev pub wire_entry : LogEntry → List ℕ
wire_entry e =
    ulong_bytes e.term ++ (val_type_byte e.val_type ∷ (int_bytes (length e.buf) ++ e.buf))

abbrev pub wire_entries : List LogEntry → List (List ℕ)
wire_entries [] = []
wire_entries (e ∷ es) = wire_entry e ∷ wire_entries es

-- An entry that can be sent.
pub record IsSendable (e : LogEntry) : Type 0 where
  pub term : IsU64 e.term
  pub named : IsNamed e.val_type

pub length-wire_entry : (e : LogEntry) → length (wire_entry e) ≡ 13 + length e.buf
length-wire_entry e = omega (
  arith,
  length-append (ulong_bytes e.term)
      (val_type_byte e.val_type ∷ (int_bytes (length e.buf) ++ e.buf)),
  length-append (int_bytes (length e.buf)) e.buf,
  length-ulong_bytes e.term,
  length-int_bytes (length e.buf),
)

pub small : (n : ℕ) → Fits n → n % 2 ^ 32 ≡ n
small n h = omega (arith, h)

encode_entry-wire :
    (e : LogEntry) → Fits (length (wire_entry e)) → encode_entry e ≡ ok (cursor [] (wire_entry e))
unfolding encode_entry put_ulong put_byte put_int put_buffer data_of
encode_entry-wire e h = rw (small (length e.buf) (omega (arith, h, length-wire_entry e))) (
    alloc-puts (13 + length e.buf)
      (ulong_bytes e.term ∷ (val_type_byte e.val_type ∷ []) ∷ int_bytes (length e.buf) ∷ e.buf ∷ [])
      (omega (arith, h, length-wire_entry e)) (rw append-nil (length-wire_entry e))
    ∙ rw append-nil refl)

pub alloc_size : (n : ℕ) → Fits n → alloc (to_ulong n) ≡ ok (cursor [] (replicate n 0))
alloc_size n h = rw (lt→ltb n (2 ^ 31) h) (alloc_lem n h)

decode_entry-wire :
    (behind done : List ℕ) (e : LogEntry) (rest : List ℕ)
    → IsSendable e
    → Fits (length done + length (wire_entry e ++ rest))
    → decode_entry behind (cursor done (wire_entry e ++ rest))
      ≡ ok (e, cursor (done ++ wire_entry e) rest)
unfolding decode_entry
decode_entry-wire behind done e rest v h =
    rw
      (
        parts,
        get_ulong-cursor done (val_type_byte e.val_type ∷ (ints ++ (e.buf ++ rest))) e.term v.term
            f1,
        get_byte-cursor (done ++ ulong_bytes e.term) (ints ++ (e.buf ++ rest))
            (val_type_byte e.val_type) (val_type_byte-IsByte e.val_type v.named) f2,
        get_int-cursor (done ++ ulong_bytes e.term ++ (val_type_byte e.val_type ∷ []))
            (e.buf ++ rest) (length e.buf) (omega (arith, f4, length-append e.buf rest)) f3,
        alloc_size (length e.buf) (omega (arith, f4, length-append e.buf rest)),
        get_buffer-cursor behind
            (done ++ ulong_bytes e.term ++ (val_type_byte e.val_type ∷ []) ++ ints) e.buf rest f4,
        val_type_of-val_type_byte e.val_type v.named,
      )
      (ap (λ d. ok (e, cursor d rest)) joined)
  where
    ints : List ℕ
    ints = int_bytes (length e.buf)

    parts :
        wire_entry e ++ rest
        ≡ ulong_bytes e.term ++ (val_type_byte e.val_type ∷ (ints ++ (e.buf ++ rest)))
    parts = simp append_assoc

    f1 : Fits (
        length done
        + length (ulong_bytes e.term ++ (val_type_byte e.val_type ∷ (ints ++ (e.buf ++ rest)))))
    f1 = rw (← parts) h

    f2 : Fits (length (done ++ ulong_bytes e.term) + suc (length (ints ++ (e.buf ++ rest))))
    f2 =
        Fits-next done (ulong_bytes e.term) (val_type_byte e.val_type ∷ (ints ++ (e.buf ++ rest)))
          f1

    f3 : Fits (
        length (done ++ ulong_bytes e.term ++ (val_type_byte e.val_type ∷ []))
        + length (ints ++ (e.buf ++ rest)))
    f3 =
        Fits-next (done ++ ulong_bytes e.term) (val_type_byte e.val_type ∷ [])
          (ints ++ (e.buf ++ rest)) f2

    f4 : Fits (
        length (done ++ ulong_bytes e.term ++ (val_type_byte e.val_type ∷ []) ++ ints)
        + length (e.buf ++ rest))
    f4 =
        Fits-next (done ++ ulong_bytes e.term ++ (val_type_byte e.val_type ∷ [])) ints
          (e.buf ++ rest) f3

    joined :
        done ++ ulong_bytes e.term ++ (val_type_byte e.val_type ∷ []) ++ ints ++ e.buf
        ≡ done ++ wire_entry e
    joined = simp append_assoc

pub decode_entries-wire :
    (behind : List ℕ) (fuel : ℕ) (done : List ℕ) (es : List LogEntry)
    → All IsSendable es
    → Fits (length done + length (flat (wire_entries es)))
    → length es < fuel
    → decode_entries behind fuel (cursor done (flat (wire_entries es))) ≡ ok es
unfolding decode_entries size
decode_entries-wire behind zero done es v h f = absurd (omega (arith, f))
decode_entries-wire behind (suc fuel) done [] v h f =
    rw
      (le→ltb_false (length done) (length (done ++ []))
        (omega (arith, length-append {A = ℕ} done [])))
      refl
decode_entries-wire behind (suc fuel) done (e ∷ es) (ve, v) h f =
    rw
      (
        lt→ltb (length done) (length (done ++ (wire_entry e ++ flat (wire_entries es)))) (
            omega (
              arith,
              length-append done (wire_entry e ++ flat (wire_entries es)),
              length-append (wire_entry e) (flat (wire_entries es)),
              length-wire_entry e,
            )),
        decode_entry-wire behind done e (flat (wire_entries es)) ve h,
        decode_entries-wire behind fuel (done ++ wire_entry e) es v
            (Fits-next done (wire_entry e) (flat (wire_entries es)) h) (omega (arith, f)),
      )
      refl

pub encode_entries-wire :
    (es : List LogEntry)
    → Fits (length (flat (wire_entries es)))
    → encode_entries es ≡ ok (cursors (wire_entries es))
unfolding encode_entries
encode_entries-wire [] h = refl
encode_entries-wire (e ∷ es) h =
    rw
      (
        encode_entry-wire e
            (omega (arith, h, length-append (wire_entry e) (flat (wire_entries es)))),
        encode_entries-wire es
            (omega (arith, h, length-append (wire_entry e) (flat (wire_entries es)))),
      )
      refl
