-- ===== src/Model/Schema.antt =====
-- What GORM reads from the structs of backend/internal/model/models.go by reflection: the primary
-- key, the hook, the time stamps, the foreign keys of the belongs-to associations, the columns.
use sociomile.Prelude.{ℕ, String, [], Option, none, some, eqb, if◌then◌else◌}
use sociomile.Model.{
  BaseModel, before_create, Customer, Message, Ticket, Conversation, ActivityLog, OutboxEvent,
}

pub record Schema (R : Type 0) : Type 0 where
  pub base_of : R → BaseModel
  pub with_base : BaseModel → R → R
  -- A loaded belongs-to association decides its foreign key when the record is written.
  pub references : R → R
  pub columns : R → R

abbrev pub key : {R : Type 0} → Schema R → R → String
key sc r = (sc.base_of r).id

-- The times that GORM fills in where they are zero, when it inserts.
abbrev stamp : ℕ → BaseModel → BaseModel
stamp t m = record m {
  created_at = if eqb m.created_at 0 then t else m.created_at;
  updated_at = if eqb m.updated_at 0 then t else m.updated_at;
}

-- The record after `Create`: the hook has run with the new identifier, and the times are set.
abbrev pub created : {R : Type 0} → Schema R → String → ℕ → R → R
created sc uuid t r = sc.references (sc.with_base (stamp t (before_create uuid (sc.base_of r))) r)

-- The record after `Save`, which sets the time of the update.
abbrev pub saved : {R : Type 0} → Schema R → ℕ → R → R
saved sc t r = sc.references (sc.with_base (record (sc.base_of r) { updated_at = t }) r)

-- The foreign key of a loaded association, and the key as it stands where none is loaded.
abbrev pub foreign_key : {R : Type 0} → (R → String) → Option R → Option String → Option String
foreign_key id none fk = fk
foreign_key id (some r) fk = some (id r)

abbrev pub foreign_key_value : {R : Type 0} → (R → String) → Option R → String → String
foreign_key_value id none fk = fk
foreign_key_value id (some r) fk = id r

abbrev pub customers : Schema Customer
customers = record {
  base_of = λ r. r.base;
  with_base = λ b r. record r { base = b };
  references = λ r. r;
  columns = λ r. r;
}

-- `foreignKey:CustomerID`, `foreignKey:ChannelID` and `foreignKey:AssignedAgentID`.
abbrev pub conversation_references : Conversation → Conversation
conversation_references r = record r {
  customer_id = foreign_key_value (λ c. c.id) r.customer r.customer_id;
  channel_id = foreign_key_value (λ c. c.id) r.channel r.channel_id;
  assigned_agent_id = foreign_key (λ u. u.id) r.assigned_agent r.assigned_agent_id;
}

abbrev pub conversation_columns : Conversation → Conversation
conversation_columns r = record r {
  customer = none;
  channel = none;
  assigned_agent = none;
  messages = [];
  ticket = none;
}

abbrev pub conversations : Schema Conversation
conversations = record {
  base_of = λ r. r.base;
  with_base = λ b r. record r { base = b };
  references = conversation_references;
  columns = conversation_columns;
}

abbrev pub messages : Schema Message
messages = record {
  base_of = λ r. r.base;
  with_base = λ b r. record r { base = b };
  references = λ r. r;
  columns = λ r. r;
}

abbrev pub tickets : Schema Ticket
tickets = record {
  base_of = λ r. r.base;
  with_base = λ b r. record r { base = b };
  references = λ r. record r {
    assigned_agent_id = foreign_key (λ u. u.id) r.assigned_agent r.assigned_agent_id;
  };
  columns = λ r. record r { assigned_agent = none };
}

abbrev pub activity_logs : Schema ActivityLog
activity_logs = record {
  base_of = λ r. r.base;
  with_base = λ b r. record r { base = b };
  references = λ r. r;
  columns = λ r. r;
}

abbrev pub outbox_events : Schema OutboxEvent
outbox_events = record {
  base_of = λ r. r.base;
  with_base = λ b r. record r { base = b };
  references = λ r. r;
  columns = λ r. r;
}
