-- ===== src/Store/Losses.antt =====
-- fs_log_store.cxx: what the end of compact leaves of the files that it is to restore.
use cornerstone.Common.{◌≡◌, [], true, false, ◌&&◌, arith}
use cornerstone.Buffer.{err, runtime_error}
use cornerstone.Store.File
use cornerstone.Store.State.{dat}
use cornerstone.Store.Restore.{
  Folder, restore, reopen, has_failed, create, create_data, remove, on_stream, at, each, close_good,
  open_out, open_existing,
}

reopen-lost :
    (d : Folder)
    → ((d.streams dat).failed && (d.streams dat).is_open) ≡ false
    → (((reopen d).streams dat).failed ≡ true)
      × (((reopen d).exists dat ≡ false) × (((reopen d).backups dat).bytes ≡ []))
unfolding reopen create create_data remove on_stream at each close_good open_out open_existing
    File.close File.seek
reopen-lost d h = ground (arith, h)

-- Where the stream of the data file is in good order or closed, the files are not restored: an error is
-- thrown, the data file is gone, and its backup, which is opened in its place, is empty.
pub restore-lost :
    (d : Folder)
    → ((d.streams dat).failed && (d.streams dat).is_open) ≡ false
    → ((restore d).0 ≡ err runtime_error)
      × (((restore d).1.exists dat ≡ false) × (((restore d).1.backups dat).bytes ≡ []))
unfolding restore has_failed
restore-lost d h = ground (arith, reopen-lost d h)
