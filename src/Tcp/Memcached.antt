-- ===== src/Tcp/Memcached.antt =====
-- The memcached commands over the reference database: an abstract specification of the protocol,
-- and the parser and the handlers as its implementation.
pub mod Spec
pub mod History
pub mod Keeps
pub mod Cuts
pub mod Replies
pub mod Refinement
pub mod Reference
mod Tests
