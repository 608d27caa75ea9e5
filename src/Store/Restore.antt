-- ===== src/Store/Restore.antt =====
-- fs_log_store.cxx: the end of compact, where the removal, the cut or the opening of a file has failed, and
-- the files are to be restored from their backups. Here the disk does what it is asked to: a file is
-- removed, and is opened for writing only where there is none; but with `in`, a file must be there.
use cornerstone.Common.{[], Bool, true, false, not, ◌||◌, if◌then◌else◌}
use cornerstone.Buffer.{Result, ok, err, runtime_error}
use cornerstone.Store.File
use cornerstone.Store.File.{File, open_ate}
use cornerstone.Store.State.{Store, Which, idx, dat, sti, file_of}
use cornerstone.Store.Compact.{copy_rest}

-- The streams of the store, with what the file at the path of each holds, whether that file exists, and
-- the streams of the backup files, with what those hold.
pub record Folder : Type 0 where
  pub streams : Which → File
  pub exists : Which → Bool
  pub backups : Which → File

-- A change at one of the three.
unfoldable pub at : {A : Type 0} → Which → (A → A) → (Which → A) → Which → A
at idx op f idx = op (f idx)
at dat op f dat = op (f dat)
at sti op f sti = op (f sti)
at _ op f w = f w

unfoldable pub on_stream : Which → (File → File) → Folder → Folder
unfolding at
on_stream w op d = record d { streams = at w op d.streams }

-- `if (file) file.close();`
unfoldable pub close_good : File → File
close_good f = if f.failed then f else File.close f

-- `std::remove` of the file at a path of the store.
unfoldable pub remove : Which → Folder → Folder
unfolding on_stream at
remove w d =
    on_stream w (λ f. record f { bytes = [] }) (record d { exists = at w (λ e. false) d.exists })

-- `open` for writing only, which makes the file or empties it; an open stream fails.
unfoldable pub open_out : File → File
open_out f = if f.is_open then record f { failed = true } else File.file [] 0

-- `open` for reading and writing, of a file that exists or not.
unfoldable pub open_existing : Bool → File → File
open_existing exists f =
    if f.is_open || not exists then record f { failed = true } else open_ate f.bytes

-- A file is opened for writing, closed, and opened again.
unfoldable pub create : Which → Folder → Folder
unfolding on_stream at open_out open_existing
create w d =
    let made =
      (if (d.streams w).is_open then d else record d { exists = at w (λ e. true) d.exists }) in
    let closed = on_stream w (λ f. File.close (open_out f)) made in
    on_stream w (open_existing (closed.exists w)) closed

-- The data file: it is its backup that is opened for writing, before the file itself is opened.
unfoldable pub create_data : Folder → Folder
unfolding on_stream at open_existing
create_data d =
    let f = d.streams dat in
    let opened =
      (if f.is_open then on_stream dat (λ f. record f { failed = true }) d else record d {
        streams = at dat (λ f. record f { is_open = true; failed = false; pos = 0 }) d.streams;
        backups = at dat (λ b. record b { bytes = [] }) d.backups;
      }) in
    let closed = on_stream dat File.close opened in
    on_stream dat (open_existing (closed.exists dat)) closed

-- `file << backup.rdbuf()`; a stream that has failed takes nothing.
unfoldable pub copy_back : Which → Folder → Folder
unfolding on_stream at
copy_back w d = on_stream w (λ f. if f.failed then f else copy_rest f (d.backups w)) d

unfoldable pub each : (Which → Folder → Folder) → Folder → Folder
each op d = op sti (op dat (op idx d))

unfoldable pub has_failed : Folder → Bool
has_failed d = (d.streams idx).failed || ((d.streams dat).failed || (d.streams sti).failed)

-- The files before they are looked at.
unfoldable pub reopen : Folder → Folder
unfolding each remove create create_data on_stream at close_good
reopen d =
    let closed = each (λ w. on_stream w close_good) d in
    let removed = each remove closed in
    let rewound =
      each (λ w e. record e { backups = at w (λ b. File.seek b 0) e.backups }) removed in
    create sti (create idx (create_data rewound))

-- The backups are copied and closed.
unfoldable pub copy_all : Folder → Folder
unfolding each copy_back at
copy_all d =
    let copied = copy_back sti (copy_back idx (copy_back dat d)) in
    each (λ w e. record e { backups = at w File.close e.backups }) copied

unfoldable pub restore : Folder → Result Bool × Folder
restore d =
    let ready = reopen d in
    if has_failed ready then (err runtime_error, ready) else (ok false, copy_all ready)

-- The folder where `compact` was to clear a store, and the index file could not be removed: the backups
-- are made, and both streams are closed.
unfoldable pub cut_short : Store → Folder
cut_short s = record {
  streams = at dat File.close (at idx File.close (λ w. file_of w s));
  exists = λ w. true;
  backups = λ w. copy_rest (File.file [] 0) (File.seek (file_of w s) 0);
}
