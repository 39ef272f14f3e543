-- ===== src/Seeds.antt =====
-- backend/seeds/default.go: the demo data, and what loading it leaves in the tables.
pub mod Columns
pub mod Demo
pub mod Load
pub mod Rows
pub mod Upserted
pub mod Loaded
