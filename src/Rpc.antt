-- ===== src/Rpc.antt =====
-- asio_service.cxx: the messages of the rpc client and of its sessions as bytes.
pub mod Types
pub mod Request
pub mod Entries
pub mod RoundTrip
pub mod Response
pub mod Session
pub mod Client
pub mod Listener
pub mod Bounds
