-- ===== src/Runs.antt =====
-- The theorems at concrete values.
mod Codec
mod Server
mod Rpc
mod Store
mod Pointers
mod Cluster
mod Service
