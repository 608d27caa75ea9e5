-- ===== src/Store/File.antt =====
-- What fs_log_store.cxx uses of std::fstream: a file that is open for reading and writing.
-- A stream has one position for both. The disk itself does not fail: an operation fails on a stream that
-- has failed before or is closed, and a read where the file is too short. Buffering is not modelled:
-- what is written is in the file at once.
use cornerstone.Common.{
  ℕ, ◌+◌, ◌-◌, ◌^◌, List, [], ◌∷◌, ◌++◌, length, take, drop, replicate, Bool, true, false, not,
  ◌&&◌, ◌||◌, leb, ◌==◌, if◌then◌else◌, Option, none, some,
}
use cornerstone.Buffer.{Result, ok, err, io_failure}

pub record File : Type 0 where
  pub bytes : List ℕ
  pub pos : ℕ
  pub is_open : Bool
  pub failed : Bool

-- A stream in good order.
abbrev pub file : List ℕ → ℕ → File
file bytes pos = record { bytes = bytes; pos = pos; is_open = true; failed = false }

-- `open` with `ate`, of a file that exists.
unfoldable pub open_ate : List ℕ → File
open_ate bytes = file bytes (length bytes)

-- `open`, and where there is no file, make it and open again.
unfoldable pub open_or_create : Option (List ℕ) → File
unfolding open_ate
open_or_create none = open_ate []
open_or_create (some bytes) = open_ate bytes

abbrev pub is_usable : File → Bool
is_usable f = f.is_open && not f.failed

-- `seekg` and `seekp`
unfoldable pub seek : File → ℕ → File
seek f p = if is_usable f then record f { pos = p } else record f { failed = true }

unfoldable pub seek_end : File → File
unfolding seek
seek_end f = seek f (length f.bytes)

-- `tellg` and `tellp`, as an ulong: -1 where the stream has failed.
unfoldable pub tell : File → ℕ
tell f = if is_usable f then f.pos else 2 ^ 64 - 1

-- `in >> buffer`, for the bytes that the buffer has room for.
unfoldable pub read : File → ℕ → Result (List ℕ) × File
read f n =
    if is_usable f && (leb (f.pos + n) (length f.bytes) || n == 0)
    then (ok (take n (drop f.pos f.bytes)), record f { pos = f.pos + n })
    else (err io_failure, record f { failed = true })

-- The content after a write at a position; a gap before it reads as zeros.
unfoldable pub splice : List ℕ → ℕ → List ℕ → List ℕ
splice old p [] = old
splice old p (x ∷ xs) =
    take p (old ++ replicate (p - length old) 0) ++ ((x ∷ xs) ++ drop (p + length (x ∷ xs)) old)

-- `write`, which reports a failure in the state of the stream only.
unfoldable pub write : File → List ℕ → File
unfolding splice
write f xs =
    if is_usable f
    then record f { bytes = splice f.bytes f.pos xs; pos = f.pos + length xs }
    else record f { failed = true }

-- `out << buffer`
unfoldable pub put : File → List ℕ → Result (Unit {0}) × File
unfolding write
put f xs = let f' = write f xs in if f'.failed then (err io_failure, f') else (ok tt, f')

-- What `truncate` leaves of a file.
unfoldable pub truncate : List ℕ → ℕ → List ℕ
truncate bytes n = take n (bytes ++ replicate (n - length bytes) 0)

-- `close`: a stream that is not open fails.
unfoldable pub close : File → File
close f = if f.is_open then record f { is_open = false } else record f { failed = true }
