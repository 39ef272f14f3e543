-- ===== src/Repository/Tables.antt =====
-- The tables that backend/internal/repository/store.go reads and writes.
use sociomile.Model.{
  Tenant, User, Channel, Customer, Conversation, Message, Ticket, ActivityLog, OutboxEvent,
}
use sociomile.Gorm.Session.{Table}

abbrev pub tenants : Table Tenant
tenants = record { rows = λ d. d.tenants; put = λ rows d. record d { tenants = rows } }

abbrev pub users : Table User
users = record { rows = λ d. d.users; put = λ rows d. record d { users = rows } }

abbrev pub channels : Table Channel
channels = record { rows = λ d. d.channels; put = λ rows d. record d { channels = rows } }

abbrev pub customers : Table Customer
customers = record { rows = λ d. d.customers; put = λ rows d. record d { customers = rows } }

abbrev pub conversations : Table Conversation
conversations = record {
  rows = λ d. d.conversations;
  put = λ rows d. record d { conversations = rows };
}

abbrev pub messages : Table Message
messages = record { rows = λ d. d.messages; put = λ rows d. record d { messages = rows } }

abbrev pub tickets : Table Ticket
tickets = record { rows = λ d. d.tickets; put = λ rows d. record d { tickets = rows } }

abbrev pub activity_logs : Table ActivityLog
activity_logs = record {
  rows = λ d. d.activity_logs;
  put = λ rows d. record d { activity_logs = rows };
}

abbrev pub outbox_events : Table OutboxEvent
outbox_events = record {
  rows = λ d. d.outbox_events;
  put = λ rows d. record d { outbox_events = rows };
}
