-- ===== src/Store.antt =====
-- internal/store: the PostgreSQL tables and the statements that the store runs on them.
pub mod Tables
pub mod Jobs
pub mod Queue
pub mod Library
pub mod Limits
