-- ===== src/Codec/Entry.antt =====
-- log_val_type.hxx and log_entry.hxx. An entry's buffer is its bytes, read from the front: `serialize`
-- and the committing thread rewind it first. The position that a buffer in the log store's memory
-- keeps from one reader to the next is not modelled.
use cornerstone.Common.{
  ℕ, suc, ◌+◌, ◌≡◌, refl, ◌∙◌, List, [], ◌∷◌, ◌++◌, length, arith, IsU64, IsByte, append-nil,
  length-append, if◌then◌else◌, ◌==◌,
}
use cornerstone.Buffer.{
  Buffer, Result, ok, ◌>>=◌, alloc, set_pos, put_ulong, put_byte, put_buffer, get_ulong, get_byte,
  copy, ulong_bytes, data_of,
}
use cornerstone.Buffer.Laws.{
  cursor, Fits, Fits-next, alloc-puts, get_ulong-cursor, get_byte-cursor, length-ulong_bytes,
  copy-cursor, set_pos_zero,
}

-- `unnamed` is a value that the cast from a byte makes of a number that the enum has no name for.
pub data LogValType : Type 0 where
  app_log conf cluster_server log_pack snp_sync_req : LogValType
  unnamed : ℕ → LogValType

unfoldable pub val_type_byte : LogValType → ℕ
val_type_byte app_log = 1
val_type_byte conf = 2
val_type_byte cluster_server = 3
val_type_byte log_pack = 4
val_type_byte snp_sync_req = 5
val_type_byte (unnamed b) = b

unfoldable pub val_type_of : ℕ → LogValType
val_type_of b =
    if b == 1
    then app_log
    else if b == 2
    then conf
    else if b == 3
    then cluster_server
    else if b == 4
    then log_pack
    else if b == 5
    then snp_sync_req
    else unnamed b

pub record LogEntry : Type 0 where
  pub term : ℕ
  pub val_type : LogValType
  pub buf : List ℕ

unfoldable pub serialize : LogEntry → Result Buffer
serialize e = do
  b ← alloc (8 + 1 + length e.buf)
  b ← put_ulong b e.term
  b ← put_byte b (val_type_byte e.val_type)
  b ← put_buffer b (record { bytes = e.buf; pos = 0 })
  ok (set_pos b 0)

unfoldable pub deserialize : Buffer → Result LogEntry
deserialize b = do
  (term, b) ← get_ulong b
  (t, b) ← get_byte b
  data_copy ← copy b
  ok (record { term = term; val_type = val_type_of t; buf = data_copy.bytes })

-- `term_in_buffer`: the term in front, and the buffer rewound.
unfoldable pub term_in_buffer : Buffer → Result (ℕ × Buffer)
term_in_buffer b = do (term, b) ← get_ulong b; ok (term, set_pos b 0)

-- A value type that the code names.
abbrev pub IsNamed : LogValType → Type 0
IsNamed (unnamed b) = ⊥
IsNamed _ = Unit

pub record IsEntry (e : LogEntry) : Type 0 where
  pub term : IsU64 e.term
  pub named : IsNamed e.val_type
  pub fits : Fits (9 + length e.buf)

-- The bytes of a serialized entry.
unfoldable pub image : LogEntry → List ℕ
image e = ulong_bytes e.term ++ (val_type_byte e.val_type ∷ e.buf)

pub val_type_of-val_type_byte : (t : LogValType) → IsNamed t → val_type_of (val_type_byte t) ≡ t
unfolding val_type_of val_type_byte
val_type_of-val_type_byte app_log h = refl
val_type_of-val_type_byte (unnamed b) h = absurd h
val_type_of-val_type_byte _ h = refl

pub val_type_byte-IsByte : (t : LogValType) → IsNamed t → IsByte (val_type_byte t)
unfolding val_type_byte
val_type_byte-IsByte app_log h = omega arith
val_type_byte-IsByte (unnamed b) h = absurd h
val_type_byte-IsByte _ h = omega arith

pub length-image : (e : LogEntry) → length (image e) ≡ 9 + length e.buf
unfolding image
length-image e = omega (
  arith,
  length-append (ulong_bytes e.term) (val_type_byte e.val_type ∷ e.buf),
  length-ulong_bytes e.term,
)

pub serialize-image :
    (e : LogEntry) → Fits (9 + length e.buf) → serialize e ≡ ok (cursor [] (image e))
unfolding serialize image put_ulong put_byte put_buffer data_of
serialize-image e h =
    alloc-puts (9 + length e.buf)
      (ulong_bytes e.term ∷ (val_type_byte e.val_type ∷ []) ∷ e.buf ∷ []) h
      (rw append-nil (length-image e))
    ∙ rw append-nil

-- What `deserialize` reads where the bytes of an entry are all that is left.
pub deserialize-image :
    (done : List ℕ) (e : LogEntry)
    → IsEntry e
    → Fits (length done + length (image e))
    → deserialize (cursor done (image e)) ≡ ok e
unfolding deserialize image
deserialize-image done e v h = rw (
  get_ulong-cursor done (val_type_byte e.val_type ∷ e.buf) e.term v.term h,
  get_byte-cursor (done ++ ulong_bytes e.term) e.buf (val_type_byte e.val_type)
      (val_type_byte-IsByte e.val_type v.named) fits,
  copy-cursor (done ++ ulong_bytes e.term ++ (val_type_byte e.val_type ∷ [])) e.buf
      (Fits-next (done ++ ulong_bytes e.term) (val_type_byte e.val_type ∷ []) e.buf fits),
  val_type_of-val_type_byte e.val_type v.named,
)
  where
    fits : Fits (length (done ++ ulong_bytes e.term) + suc (length e.buf))
    fits = Fits-next done (ulong_bytes e.term) (val_type_byte e.val_type ∷ e.buf) h

-- An entry that is written and read back is the entry.
deserialize-serialize : (e : LogEntry) → IsEntry e → (serialize e >>= deserialize) ≡ ok e
deserialize-serialize e v =
    rw (serialize-image e v.fits) (deserialize-image [] e v (omega (arith, v.fits, length-image e)))

-- The store reads the term alone from the front of a serialized entry.
term_in_buffer-serialize :
    (e : LogEntry) → IsEntry e → (serialize e >>= term_in_buffer) ≡ ok (e.term, cursor [] (image e))
unfolding term_in_buffer image
term_in_buffer-serialize e v =
    rw
      (
        serialize-image e v.fits,
        get_ulong-cursor [] (val_type_byte e.val_type ∷ e.buf) e.term v.term (
            omega (
              arith,
              v.fits,
              length-append (ulong_bytes e.term) (val_type_byte e.val_type ∷ e.buf),
              length-ulong_bytes e.term,
            )),
      )
      (rw set_pos_zero)
