-- ===== src/Repository.antt =====
-- backend/internal/repository: the tables, the tests of the queries, and the store over them.
pub mod Tables
pub mod Filters
pub mod Store
