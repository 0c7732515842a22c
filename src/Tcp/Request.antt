-- ===== src/Tcp/Request.antt =====
-- src/quitsies/tcp/request.hpp and request.cpp.
pub mod Types
pub mod Command
pub mod Response
pub mod Process
pub mod Chunks
pub mod Partial
pub mod Words
pub mod Storage
pub mod Retrieval
pub mod Endings
pub mod Complete
pub mod Limits
pub mod Malformed
pub mod Locking
mod Tests
