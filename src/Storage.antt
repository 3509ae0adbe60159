-- ===== src/Storage.antt =====
-- internal/storage: what is written to the database and read from it.
pub mod Invalid
pub mod Rows
pub mod Path
pub mod Select
pub mod Writer
pub mod Tests
