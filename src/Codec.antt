-- ===== src/Codec.antt =====
-- The classes that are written to and read from buffers, and the two message formats of the rpc.
pub mod Entry
pub mod Srv
pub mod Config
pub mod Snapshot
