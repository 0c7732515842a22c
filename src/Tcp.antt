-- ===== src/Tcp.antt =====
-- src/quitsies/tcp: the memcached API.
pub mod Request
pub mod Memcached
pub mod Connection
pub mod Server
pub mod Threads
