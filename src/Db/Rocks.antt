-- ===== src/Db/Rocks.antt =====
-- src/quitsies/db/rocks.hpp and rocks.cpp: the store over RocksDB.
pub mod Engine
pub mod Store
pub mod Http
pub mod Backups
pub mod Folder
pub mod Open
pub mod EpochCall
pub mod Lock
pub mod Map
pub mod Routes
pub mod Lifetime
pub mod Served
mod Tests
mod MapTests
