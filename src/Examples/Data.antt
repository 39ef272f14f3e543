-- ===== src/Examples/Data.antt =====
-- Small databases for the examples: one tenant with an admin, an agent, a channel and a customer,
-- and a conversation in each of the states that the services tell apart.
use sociomile.Prelude.{ℕ, ◌≡◌, refl, String, true, Option, none, some, List, [], ◌∷◌}
use sociomile.Apperror.{Error, record_not_found}
use sociomile.Model.{
  BaseModel, User, Conversation, Ticket, OutboxEvent, Db, role_admin, role_agent, fields_payload,
}
use sociomile.Exec.{Result, ok, err, State}

abbrev pub row : String → BaseModel
row id = record { id = id; created_at = 1; updated_at = 1 }

abbrev pub user : String → String → User
user id role = record {
  base = row id;
  tenant_id = "t";
  name = id;
  email = id;
  password_hash = "hash";
  role = role;
  active = true;
  tenant = none;
}

abbrev pub conversation : String → Option String → Conversation
conversation status assignee = record {
  base = row "c";
  tenant_id = "t";
  customer_id = "k";
  channel_id = "h";
  status = status;
  assigned_agent_id = assignee;
  customer = none;
  channel = none;
  assigned_agent = none;
  messages = [];
  ticket = none;
}

abbrev pub ticket : Ticket
ticket = record {
  base = row "i";
  tenant_id = "t";
  conversation_id = "c";
  title = "title";
  description = "text";
  status = "open";
  priority = "low";
  assigned_agent_id = none;
  assigned_agent = none;
}

abbrev pub event : String → OutboxEvent
event id = record {
  base = row id;
  tenant_id = "t";
  event_type = "ticket.created";
  entity_type = "ticket";
  entity_id = "i";
  routing_key = "ticket.created";
  payload = fields_payload [];
  attempts = 0;
  published_at = none;
  failed_at = none;
}

abbrev pub tables : Conversation → List Ticket → Db
tables c tickets = record {
  tenants = record { base = row "t"; name = "Acme"; slug = "acme" } ∷ [];
  users = user "u" role_admin ∷ user "a" role_agent ∷ user "b" role_agent ∷ [];
  channels = record { base = row "h"; tenant_id = "t"; key = "web"; name = "Web" } ∷ [];
  customers = record { base = row "k"; tenant_id = "t"; external_id = "x"; name = "Ada" } ∷ [];
  conversations = c ∷ [];
  messages = [];
  tickets = tickets;
  activity_logs = [];
  outbox_events = [];
}

-- An open conversation of nobody, one of the agent `a`, and a closed one.
abbrev pub free : State ℕ
free = record { db = tables (conversation "open" none) []; world = 1 }

abbrev pub taken : State ℕ
taken = record { db = tables (conversation "assigned" (some "a")) (ticket ∷ []); world = 1 }

abbrev pub shut : State ℕ
shut = record { db = tables (conversation "closed" (some "a")) []; world = 1 }

-- What a run returned, where it returned a value or an error.
abbrev pub value_or : {A : Type 0} → A → Result A → A
value_or a (ok b) = b
value_or a (err e) = a

abbrev pub error_of : {A : Type 0} → Result A → Error
error_of (ok a) = record_not_found
error_of (err e) = e

-- Whether a run returned a value.
abbrev pub IsOk : {A : Type 0} → Result A → Type 0
IsOk (ok a) = Unit
IsOk (err e) = ⊥

abbrev pub IsErr : {A : Type 0} → Result A → Type 0
IsErr (ok a) = ⊥
IsErr (err e) = Unit

-- A run as its value, or its error, and the state that it left.
pub returned :
    {A : Type 0} (a : A) (run : Result A × State ℕ)
    → IsOk run.0
    → run ≡ (ok (value_or a run.0), run.1)
returned a (ok b, s) h = refl
returned a (err e, s) h = elim h [ ]

pub refused :
    {A : Type 0} (run : Result A × State ℕ) → IsErr run.0 → run ≡ (err (error_of run.0), run.1)
refused (ok a, s) h = elim h [ ]
refused (err e, s) h = refl
