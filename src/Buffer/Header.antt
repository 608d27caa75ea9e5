-- ===== src/Buffer/Header.antt =====
-- buffer.cxx: the header of a block, on a machine that stores the lowest byte first. A small block has
-- its size and its position in two ushort, a big one in two uint, and bit 31 of the first uint tells them
-- apart: in a small block that is the highest bit of the position.
use cornerstone.Common.{
  ℕ, ◌+◌, ◌-◌, ◌*◌, ◌/◌, ◌%◌, ◌^◌, ◌≤◌, ◌<◌, ◌≡◌, Bool, leb, ltb, if◌then◌else◌, arith, inl, inr,
  Bool-cases, length-replicate, replicate,
}
use cornerstone.Buffer.{Buffer, ok, size, alloc, set_pos, move_forward}

-- The first two uint of a block; a small block has only the first one.
pub record Header : Type 0 where
  pub first : ℕ
  pub second : ℕ

-- Bit 31, of a number below 2 ^ 32.
unfoldable pub is_big_block : Header → Bool
is_big_block h = leb 0x80000000 h.first

-- The two ushort of the first uint.
abbrev low_half : ℕ → ℕ
low_half w = w % 2 ^ 16

abbrev high_half : ℕ → ℕ
high_half w = w / 2 ^ 16

abbrev halves : ℕ → ℕ → ℕ
halves low high = low + high * 2 ^ 16

unfoldable pub init_s_block : ℕ → Header
init_s_block n = record { first = halves (n % 2 ^ 16) 0; second = 0 }

-- Bit 31 of the size is not set before.
unfoldable pub init_b_block : ℕ → Header
init_b_block n = record { first = n % 2 ^ 32 + 0x80000000; second = 0 }

-- What `alloc` writes, for a size below 2 ^ 31.
unfoldable pub init_block : ℕ → Header
unfolding init_s_block init_b_block
init_block n = if leb 0x8000 n then init_b_block n else init_s_block n

-- Bit 31 is flipped, and so taken away.
unfoldable pub size_of_block : Header → ℕ
unfolding is_big_block
size_of_block h = if is_big_block h then h.first - 0x80000000 else low_half h.first

unfoldable pub pos_of_block : Header → ℕ
unfolding is_big_block
pos_of_block h = if is_big_block h then h.second else high_half h.first

unfoldable pub mv_fw_block : ℕ → Header → Header
unfolding is_big_block
mv_fw_block d h =
    if is_big_block h
    then record h { second = (h.second + d) % 2 ^ 32 }
    else record h { first = halves (low_half h.first) ((high_half h.first + d % 2 ^ 16) % 2 ^ 16) }

unfoldable pub set_block_pos : ℕ → Header → Header
unfolding is_big_block
set_block_pos p h =
    if is_big_block h
    then record h { second = p % 2 ^ 32 }
    else record h { first = halves (low_half h.first) (p % 2 ^ 16) }

-- Where the data at the position begins, behind the start of the header.
unfoldable pub data_of_block : Header → ℕ
unfolding is_big_block
data_of_block h = if is_big_block h then 2 * 4 + h.second else 2 * 2 + high_half h.first

-- `void pos(size_t p)`
unfoldable pub set_header_pos : ℕ → Header → Header
unfolding size_of_block set_block_pos
set_header_pos p h =
    let position = (if ltb (size_of_block h) p then size_of_block h else p) in
    set_block_pos position h

-- The header that a buffer has.
unfoldable pub header : Buffer → Header
unfolding size
header b =
    if leb 0x8000 (size b)
    then record { first = size b + 0x80000000; second = b.pos }
    else record { first = halves (size b) b.pos; second = 0 }

-- The parts of the statement below, each for a buffer of size `n` and position `p`.
module _ (b : Buffer) (n : size b < 0x80000000) (p : b.pos ≤ size b) where
  header-size : size_of_block (header b) ≡ size b
  unfolding header size_of_block size
  header-size = ground (arith, n, p)

  header-pos : pos_of_block (header b) ≡ b.pos
  unfolding header pos_of_block size
  header-pos = ground (arith, n, p)

  header-data : data_of_block (header b) ≡ (if leb 0x8000 (size b) then 8 else 4) + b.pos
  unfolding header data_of_block size
  header-data = ground (arith, n, p)

  header-set_pos : (q : ℕ) → set_header_pos q (header b) ≡ header (set_pos b q)
  unfolding header set_header_pos set_pos size
  header-set_pos q = ground (arith, n, p)

  header-move_forward :
      (d : ℕ) → b.pos + d ≤ size b → mv_fw_block d (header b) ≡ header (move_forward b d)
  unfolding header mv_fw_block move_forward size
  header-move_forward d h = ground (arith, n, p)

ok-injective : {a b : Buffer} → ok a ≡ ok b → a ≡ b
ok-injective e = cc

header-zeroed :
    (n : ℕ) → n < 0x80000000 → init_block n ≡ header (record { bytes = replicate n 0; pos = 0 })
unfolding header init_block size
header-zeroed n h = rw (length-replicate {A = ℕ} n 0) (ground (arith, h))

header-alloc : (n : ℕ) (b : Buffer) → alloc n ≡ ok b → init_block n ≡ header b
unfolding alloc
header-alloc n b e = elim (Bool-cases (leb 0x80000000 n)) [
  | inl y ↦ cc
  | inr y ↦
      let same : record { bytes = replicate n 0; pos = 0 } ≡ b = ok-injective (rw y at e) in
      rw (← same) (header-zeroed n (ground (arith, y)))
]

-- The header of a buffer of less than 2 GB, whose position is within it, tells the buffer's size, its
-- position and where its data is, whichever of the two layouts it has. A new block has the header of
-- its buffer; and setting the position, and moving it forward within the block, keep it the header of
-- the buffer: the position of a small block never reaches the bit that marks a big one.
pub header_lem :
    (b : Buffer) (q d : ℕ)
    → size b < 0x80000000
    → b.pos + d ≤ size b
    → ((n : ℕ) → alloc n ≡ ok b → init_block n ≡ header b)
      × (size_of_block (header b) ≡ size b)
      × (pos_of_block (header b) ≡ b.pos)
      × (data_of_block (header b) ≡ (if leb 0x8000 (size b) then 8 else 4) + b.pos)
      × (set_header_pos q (header b) ≡ header (set_pos b q))
      × (mv_fw_block d (header b) ≡ header (move_forward b d))
header_lem b q d n h =
    let p : b.pos ≤ size b = omega (arith, h) in
    (
      λ m e. header-alloc m b e,
      header-size b n p,
      header-pos b n p,
      header-data b n p,
      header-set_pos b n p q,
      header-move_forward b n p d h,
    )
