-- ===== src/Model.antt =====
-- backend/internal/model/models.go: the records, the hook that names them, and what the field
-- tags tell GORM. A loaded record carries its associations; a stored row does not, so `columns`
-- empties them.
pub mod Schema
use sociomile.Prelude.{ℕ, String, Bool, List, [], Option, none, ◌==◌, if◌then◌else◌}

abbrev pub role_admin : String
role_admin = "admin"

abbrev pub role_agent : String
role_agent = "agent"

abbrev pub conversation_status_open : String
conversation_status_open = "open"

abbrev pub conversation_status_assigned : String
conversation_status_assigned = "assigned"

abbrev pub conversation_status_closed : String
conversation_status_closed = "closed"

abbrev pub sender_type_customer : String
sender_type_customer = "customer"

abbrev pub sender_type_agent : String
sender_type_agent = "agent"

abbrev pub ticket_status_open : String
ticket_status_open = "open"

abbrev pub ticket_status_in_progress : String
ticket_status_in_progress = "in_progress"

abbrev pub ticket_status_resolved : String
ticket_status_resolved = "resolved"

abbrev pub ticket_status_closed : String
ticket_status_closed = "closed"

abbrev pub ticket_priority_low : String
ticket_priority_low = "low"

abbrev pub ticket_priority_medium : String
ticket_priority_medium = "medium"

abbrev pub ticket_priority_high : String
ticket_priority_high = "high"

-- Times are numbers of nanoseconds since the zero time, so 0 is the zero `time.Time`.
pub record BaseModel : Type 0 where
  pub id : String
  pub created_at : ℕ
  pub updated_at : ℕ

-- A `BaseModel` that the code leaves out of a literal.
abbrev pub unsaved : BaseModel
unsaved = record { id = ""; created_at = 0; updated_at = 0 }

-- `BeforeCreate`, with the identifier that `uuid.NewString` gives.
unfoldable pub before_create : String → BaseModel → BaseModel
before_create uuid m = if m.id == "" then record m { id = uuid } else m

pub record Tenant : Type 0 where
  pub base : BaseModel
  pub open base use *
  pub name : String
  pub slug : String

pub record User : Type 0 where
  pub base : BaseModel
  pub open base use *
  pub tenant_id : String
  pub name : String
  pub email : String
  pub password_hash : String
  pub role : String
  pub active : Bool
  pub tenant : Option Tenant

pub record Channel : Type 0 where
  pub base : BaseModel
  pub open base use *
  pub tenant_id : String
  pub key : String
  pub name : String

pub record Customer : Type 0 where
  pub base : BaseModel
  pub open base use *
  pub tenant_id : String
  pub external_id : String
  pub name : String

pub record Message : Type 0 where
  pub base : BaseModel
  pub open base use *
  pub conversation_id : String
  pub sender_type : String
  pub sender_id : Option String
  pub message : String

pub record Ticket : Type 0 where
  pub base : BaseModel
  pub open base use *
  pub tenant_id : String
  pub conversation_id : String
  pub title : String
  pub description : String
  pub status : String
  pub priority : String
  pub assigned_agent_id : Option String
  pub assigned_agent : Option User

-- The struct fields `Customer` and `Channel` are values in Go: `none` is their zero value.
pub record Conversation : Type 0 where
  pub base : BaseModel
  pub open base use *
  pub tenant_id : String
  pub customer_id : String
  pub channel_id : String
  pub status : String
  pub assigned_agent_id : Option String
  pub customer : Option Customer
  pub channel : Option Channel
  pub assigned_agent : Option User
  pub messages : List Message
  pub ticket : Option Ticket

-- What `json.Marshal` is given for an event: a record, or a map of texts. Its text is not modelled.
pub data Payload : Type 0 where
  conversation_payload : Conversation → Payload
  message_payload : Message → Payload
  ticket_payload : Ticket → Payload
  fields_payload : List (String × String) → Payload

pub record ActivityLog : Type 0 where
  pub base : BaseModel
  pub open base use *
  pub tenant_id : String
  pub event_type : String
  pub entity_type : String
  pub entity_id : String
  pub payload : Payload

pub record OutboxEvent : Type 0 where
  pub base : BaseModel
  pub open base use *
  pub tenant_id : String
  pub event_type : String
  pub entity_type : String
  pub entity_id : String
  pub routing_key : String
  pub payload : Payload
  pub attempts : ℕ
  pub published_at : Option ℕ
  pub failed_at : Option ℕ

-- The tables of the schema, each a list of its rows.
pub record Db : Type 0 where
  pub tenants : List Tenant
  pub users : List User
  pub channels : List Channel
  pub customers : List Customer
  pub conversations : List Conversation
  pub messages : List Message
  pub tickets : List Ticket
  pub activity_logs : List ActivityLog
  pub outbox_events : List OutboxEvent
