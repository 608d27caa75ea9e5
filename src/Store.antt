-- ===== src/Store.antt =====
-- fs_log_store.cxx and fs_log_store.hxx: the log store on three files.
pub mod File
pub mod Memory
pub mod State
pub mod Ops
pub mod Bulk
pub mod Compact
pub mod Pack
pub mod Restore
pub mod Layout
pub mod Shape
pub mod Reads
pub mod Refine
pub mod Terms
pub mod Writes
pub mod Appends
pub mod Fill
pub mod Refill
pub mod Restart
pub mod Cuts
pub mod Overwrites
pub mod Replaces
pub mod Writing
pub mod Queries
pub mod Shifts
pub mod Clears
pub mod Compacts
pub mod Loads
pub mod Ranges
pub mod Entries
pub mod Leftovers
pub mod Losses
