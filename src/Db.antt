-- ===== src/Db.antt =====
-- src/quitsies/db: the interface of the database.
pub mod Store
pub mod Memory
pub mod Rocks
