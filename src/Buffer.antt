-- ===== src/Buffer.antt =====
-- buffer.hxx and buffer.cxx: a block of bytes with a position.
-- `bytes` is the block behind the header and `pos` the position that the header keeps. The memory
-- that `alloc` returns is zeroed here; in the code its content is unspecified until it is written.
-- Exceptions are values of `Error`; a put or get returns the new buffer.
pub mod Laws
pub mod Bounds
pub mod Gets
pub mod Header
use cornerstone.Common.{
  ℕ, zero, suc, ◌+◌, ◌-◌, ◌*◌, ◌/◌, ◌%◌, ◌^◌, List, [], ◌∷◌, ◌++◌, Option, none, some, ltb, leb,
  ◌==◌, if◌then◌else◌, length, take, drop, replicate, Bool, true, false, not, ◌||◌,
}

-- The exceptions that the library throws, by their cause; `bad_read` and `bad_write` are none of them,
-- but stand for a read or a write behind the end of a block or a vector.
pub data Error : Type 0 where
  out_of_range overflow_error range_error io_failure runtime_error bad_read bad_write endless :
      Error

pub data Result {ℓ} (A : Type ℓ) : Type ℓ where
  ok : A → Result A
  err : Error → Result A

infixl 5 ◌>>=◌
abbrev pub ◌>>=◌ {ℓ κ} : {A : Type ℓ} {B : Type κ} → Result A → (A → Result B) → Result B
ok a >>= f = f a
err e >>= f = err e

pub record Buffer : Type 0 where
  pub bytes : List ℕ
  pub pos : ℕ

abbrev pub sz_byte : ℕ
sz_byte = 1

abbrev pub sz_int : ℕ
sz_int = 4

abbrev pub sz_ulong : ℕ
sz_ulong = 8

unfoldable pub size : Buffer → ℕ
size b = length b.bytes

unfoldable pub alloc : ℕ → Result Buffer
alloc n =
    if leb 0x80000000 n then err out_of_range else ok (record { bytes = replicate n 0; pos = 0 })

-- `__mv_fw_block`: the position of a small block is a ushort, of a big one a uint.
unfoldable pub move_forward : Buffer → ℕ → Buffer
unfolding size
move_forward b d =
    if leb 0x8000 (size b)
    then record b { pos = (b.pos + d) % 2 ^ 32 }
    else record b { pos = (b.pos + d % 2 ^ 16) % 2 ^ 16 }

-- `void pos(size_t p)`
unfoldable pub set_pos : Buffer → ℕ → Buffer
unfolding size
set_pos b p = record b { pos = if ltb (size b) p then size b else p }

-- What `memcpy` to `data() + p` leaves: bytes behind the end of the block are never written.
unfoldable pub overwrite : List ℕ → ℕ → List ℕ → List ℕ
overwrite old p [] = old
overwrite [] p (x ∷ xs) = []
overwrite (o ∷ old) zero (x ∷ xs) = x ∷ overwrite old zero xs
overwrite (o ∷ old) (suc p) (x ∷ xs) = o ∷ overwrite old p (x ∷ xs)

-- The bytes of `val`, from byte `i` on, `count` of them: `(byte)(val >> (i * 8))`.
abbrev pub shift_out : ℕ → ℕ → ℕ → List ℕ
shift_out zero i val = []
shift_out (suc count) i val = val / 2 ^ (i * 8) % 256 ∷ shift_out count (i + 1) val

-- `val += byte_val << (i * 8)` for each byte, in a word of `width` bits.
abbrev pub shift_in : ℕ → List ℕ → ℕ → ℕ → ℕ
shift_in width [] i val = val
shift_in width (b ∷ bs) i val = shift_in width bs (i + 1) ((val + b * 2 ^ (i * 8)) % 2 ^ width)

-- The bytes from the position on.
unfoldable pub data_of : Buffer → List ℕ
data_of b = drop b.pos b.bytes

-- `size() - pos()`; both are size_t, and the position never passes the size while only the checked
-- operations are used.
unfoldable pub avail : Buffer → ℕ
unfolding size
avail b = (size b + 2 ^ 64 - b.pos) % 2 ^ 64

unfoldable pub put_bytes : Buffer → List ℕ → Result Buffer
put_bytes b xs =
    if ltb (avail b) (length xs)
    then err overflow_error
    else ok (move_forward (record b { bytes = overwrite b.bytes b.pos xs }) (length xs))

-- The bytes of an int32 and of an ulong, the lowest first.
unfoldable pub int_bytes : ℕ → List ℕ
int_bytes v = shift_out sz_int 0 v

unfoldable pub ulong_bytes : ℕ → List ℕ
ulong_bytes v = shift_out sz_ulong 0 v

unfoldable pub put_byte : Buffer → ℕ → Result Buffer
put_byte b v = put_bytes b (v ∷ [])

unfoldable pub put_int : Buffer → ℕ → Result Buffer
put_int b v = put_bytes b (int_bytes v)

unfoldable pub put_ulong : Buffer → ℕ → Result Buffer
put_ulong b v = put_bytes b (ulong_bytes v)

-- The characters, then a zero byte.
unfoldable pub put_str : Buffer → List ℕ → Result Buffer
put_str b str = put_bytes b (str ++ (0 ∷ []))

-- `put(const buffer&)`: the source from its position on; its position stays.
unfoldable pub put_buffer : Buffer → Buffer → Result Buffer
put_buffer b src = put_bytes b (data_of src)

-- The common shape of the three gets of a number: the check, the loop over the bytes, the move.
unfoldable pub get_word : ℕ → ℕ → Buffer → Result (ℕ × Buffer)
get_word width count b =
    if ltb (avail b) count
    then err overflow_error
    else ok (shift_in width (take count (data_of b)) 0 0, move_forward b count)

unfoldable pub get_byte : Buffer → Result (ℕ × Buffer)
get_byte b = get_word 8 sz_byte b

unfoldable pub get_int : Buffer → Result (ℕ × Buffer)
get_int b = get_word 32 sz_int b

unfoldable pub get_ulong : Buffer → Result (ℕ × Buffer)
get_ulong b = get_word 64 sz_ulong b

-- The bytes before the first zero byte, and whether there is one.
unfoldable pub until_zero : List ℕ → List ℕ × Bool
until_zero [] = ([], false)
until_zero (x ∷ xs) =
    let (str, found) = until_zero xs in if x == 0 then ([], true) else (x ∷ str, found)

-- `none` is the null pointer: no zero byte before the end, or an empty string. The position moves
-- only past a string that is returned.
unfoldable pub get_str : Buffer → Option (List ℕ) × Buffer
get_str b =
    let (str, found) = until_zero (data_of b) in
    if not found || length str == 0 then (none, b) else (some str, move_forward b (length str + 1))

-- `get(ptr<buffer>& dst)` copies as many bytes as `dst` has room for, with no check of its own:
-- where this buffer holds fewer, it goes on to `behind`, the bytes that stand behind the block in memory.
unfoldable pub get_buffer : List ℕ → Buffer → Buffer → Buffer × Buffer
get_buffer behind b dst =
    let sz = avail dst in
    (
      record dst { bytes = overwrite dst.bytes dst.pos (take sz (data_of b ++ behind)) },
      move_forward b sz,
    )

-- `buffer::copy`
unfoldable pub copy : Buffer → Result Buffer
copy b = do other ← alloc (avail b); full ← put_buffer other b; ok (set_pos full 0)
