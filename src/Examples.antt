-- ===== src/Examples.antt =====
-- Examples: an engine that runs, small databases, and the theorems applied to them.
pub mod Engine
pub mod Data
pub mod Witnesses
pub mod Webhooks
pub mod Calls
pub mod Access
pub mod Outbox
pub mod Migrations
pub mod Start
pub mod Routes
pub mod Posted
pub mod Programs
pub mod Lists
pub mod Limits
pub mod Fresh
pub mod Reports
