-- ===== src/Atlas/Storage.antt =====
-- SQLiteAtlasStore of atlas/storage.py: three tables, the reads, the transactions, and the
-- integrity check. The file system and SQLite itself are taken to work; a statement that breaks a
-- constraint of the schema fails, and a failed transaction leaves the tables as they were.
pub mod Tables
pub mod Read
pub mod Write
pub mod Rows
pub mod History
pub mod Invariant
pub mod Transaction
pub mod Preservation
pub mod Integrity
