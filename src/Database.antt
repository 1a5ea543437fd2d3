-- ===== src/Database.antt =====
-- src/database: record folders and files, the writer thread's queue, and the clean-up of old years.
pub mod Records
pub mod Writer
pub mod HouseKeep
