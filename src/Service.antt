-- ===== src/Service.antt =====
-- backend/internal/service: the business rules.
pub mod Events
pub mod Paging
pub mod Conversation
pub mod Webhook
pub mod Ticket
pub mod Auth
pub mod Listing
pub mod Grows
pub mod Marks
