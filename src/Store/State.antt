-- ===== src/Store/State.antt =====
-- fs_log_store.hxx: the fields of the store, and its steps: an exception leaves the state as it is then.
-- The folder, the lock and the backup files, which no later call reads, are not in the state.
use cornerstone.Common.{ℕ, ◌*◌, ◌%◌, ◌^◌, if◌then◌else◌, ◌||◌}
use cornerstone.Buffer
use cornerstone.Buffer.{
  Buffer, Result, ok, err, Error, runtime_error, alloc, put_ulong, get_ulong, set_pos, data_of,
  avail,
}
use cornerstone.Store.File
use cornerstone.Store.File.{File, is_usable}
use cornerstone.Store.Memory.{Memory}

pub record Store : Type 0 where
  pub idx_file : File
  pub data_file : File
  pub start_idx_file : File
  pub entries_in_store : ℕ
  pub start_idx : ℕ
  pub buf : Memory
  pub buf_size : ℕ

abbrev pub M : Type 0 → Type 0
M A = Store → Result A × Store

abbrev pub and_then : {A B : Type 0} → (A → M B) → Result A × Store → Result B × Store
and_then f (ok a, s) = f a s
and_then f (err e, s) = (err e, s)

infixl 5 ◌>>=◌
abbrev pub ◌>>=◌ : {A B : Type 0} → M A → (A → M B) → M B
(m >>= f) s = and_then f (m s)

infixl 5 ◌>>◌
abbrev pub ◌>>◌ : {A B : Type 0} → M A → M B → M B
(m >> m') s = and_then (λ _. m') (m s)

abbrev pub pure : {A : Type 0} → A → M A
pure a s = (ok a, s)

abbrev pub throw : {A : Type 0} → Error → M A
throw e s = (err e, s)

abbrev pub lift : {A : Type 0} → Result A → M A
lift r s = (r, s)

abbrev pub get : M Store
get s = (ok s, s)

abbrev pub modify : (Store → Store) → M (Unit {0})
modify f s = (ok tt, f s)

-- One of the three files.
pub data Which : Type 0 where
  idx dat sti : Which

abbrev pub file_of : Which → Store → File
file_of idx s = s.idx_file
file_of dat s = s.data_file
file_of sti s = s.start_idx_file

abbrev pub set_file : Which → File → Store → Store
set_file idx f s = record s { idx_file = f }
set_file dat f s = record s { data_file = f }
set_file sti f s = record s { start_idx_file = f }

abbrev pub on_file : {A : Type 0} → Which → (File → Result A × File) → M A
on_file w op s = let (r, f) = op (file_of w s) in (r, set_file w f s)

abbrev pub change_file : Which → (File → File) → M (Unit {0})
change_file w op s = (ok tt, set_file w (op (file_of w s)) s)

abbrev pub seek : Which → ℕ → M (Unit {0})
seek w p = change_file w (λ f. File.seek f p)

abbrev pub seek_end : Which → M (Unit {0})
seek_end w = change_file w File.seek_end

abbrev pub tell : Which → M ℕ
tell w s = (ok (File.tell (file_of w s)), s)

-- `ptr<buffer> buf(buffer::alloc(n)); file >> *buf;`
unfoldable pub read_buffer : Which → ℕ → M Buffer
read_buffer w n = do
  b ← lift (alloc n)
  bytes ← on_file w (λ f. File.read f (avail b))
  pure (record b { bytes = bytes })

unfoldable pub write_buffer : Which → Buffer → M (Unit {0})
write_buffer w b = on_file w (λ f. File.put f (data_of b))

-- A buffer of eight bytes that is read, and the number in it.
unfoldable pub read_ulong : Which → M ℕ
unfolding read_buffer
read_ulong w = do b ← read_buffer w Buffer.sz_ulong; (v, b) ← lift (get_ulong b); pure v

-- A number in a buffer of eight bytes that is written.
unfoldable pub write_ulong : Which → ℕ → M (Unit {0})
unfolding write_buffer
write_ulong w v = do
  b ← lift (alloc Buffer.sz_ulong)
  b ← lift (put_ulong b v)
  write_buffer w (set_pos b 0)

-- `if (!data_file_ || !idx_file_) throw std::runtime_error(...)`
unfoldable pub check_files : M (Unit {0})
check_files s =
    if s.data_file.failed || s.idx_file.failed then (err runtime_error, s) else (ok tt, s)

-- `close`, `truncate`, `open`
unfoldable pub truncate_file : Which → ℕ → M (Unit {0})
truncate_file w n = change_file w (λ f. File.open_ate (File.truncate f.bytes n))

abbrev pub mul64 : ℕ → ℕ → ℕ
mul64 a b = a * b % 2 ^ 64
