-- ===== src/Seeds/Columns.antt =====
-- backend/seeds/default.go: the columns that a row which is there takes from the demo data. bcrypt and
-- `Clauses(clause.OnConflict{…}).Create` of GORM are parameters.
use sociomile.Prelude.{ℕ, String, Bool, false, ◌&&◌, ◌==◌, List}
use sociomile.Model.{BaseModel, Tenant, User, Channel, Customer, Conversation, Message, Ticket}
use sociomile.Exec.{Result}

-- The rows that are given with `Create`: their key, the times that GORM fills in, and the columns that a
-- row which is there takes from them, `assign new old`. `clashes` is of the table that they go to:
-- whether two rows are the same in a unique index other than the key, those of
-- backend/migrations/001_initial_schema.up.sql.
pub record OnConflict (R : Type 0) : Type 0 where
  pub key : R → String
  pub stamped : ℕ → R → R
  pub assign : R → R → R
  pub clashes : R → R → Bool

-- `Clauses(…).Create(&values)`, on the rows of a table
pub record Clauses (W : Type 0) : Type 1 where
  pub create : {R : Type 0} → OnConflict R → List R → List R → W → Result (List R) × W

abbrev pub at_times : ℕ → BaseModel → BaseModel
at_times t base = record base { created_at = t; updated_at = t }

abbrev pub updated_as : BaseModel → BaseModel → BaseModel
updated_as new old = record old { updated_at = new.updated_at }

abbrev pub tenant_columns : OnConflict Tenant
tenant_columns = record {
  key = λ r. r.id;
  stamped = λ t r. record r { base = at_times t r.base };
  assign = λ new old. record old {
    base = updated_as new.base old.base;
    name = new.name;
    slug = new.slug;
  };
  clashes = λ x y. x.slug == y.slug;
}

abbrev pub user_columns : OnConflict User
user_columns = record {
  key = λ r. r.id;
  stamped = λ t r. record r { base = at_times t r.base };
  assign = λ new old. record old {
    base = updated_as new.base old.base;
    tenant_id = new.tenant_id;
    name = new.name;
    password_hash = new.password_hash;
    role = new.role;
    active = new.active;
  };
  clashes = λ x y. x.email == y.email;
}

abbrev pub channel_columns : OnConflict Channel
channel_columns = record {
  key = λ r. r.id;
  stamped = λ t r. record r { base = at_times t r.base };
  assign = λ new old. record old {
    base = updated_as new.base old.base;
    tenant_id = new.tenant_id;
    key = new.key;
    name = new.name;
  };
  clashes = λ x y. x.tenant_id == y.tenant_id && x.key == y.key;
}

abbrev pub customer_columns : OnConflict Customer
customer_columns = record {
  key = λ r. r.id;
  stamped = λ t r. record r { base = at_times t r.base };
  assign = λ new old. record old {
    base = updated_as new.base old.base;
    tenant_id = new.tenant_id;
    external_id = new.external_id;
    name = new.name;
  };
  clashes = λ x y. x.tenant_id == y.tenant_id && x.external_id == y.external_id;
}

abbrev pub conversation_columns : OnConflict Conversation
conversation_columns = record {
  key = λ r. r.id;
  stamped = λ t r. record r { base = at_times t r.base };
  assign = λ new old. record old {
    base = updated_as new.base old.base;
    tenant_id = new.tenant_id;
    customer_id = new.customer_id;
    channel_id = new.channel_id;
    status = new.status;
    assigned_agent_id = new.assigned_agent_id;
  };
  clashes = λ x y. false;
}

abbrev pub message_columns : OnConflict Message
message_columns = record {
  key = λ r. r.id;
  stamped = λ t r. record r { base = at_times t r.base };
  assign = λ new old. record old {
    base = updated_as new.base old.base;
    conversation_id = new.conversation_id;
    sender_type = new.sender_type;
    sender_id = new.sender_id;
    message = new.message;
  };
  clashes = λ x y. false;
}

abbrev pub ticket_columns : OnConflict Ticket
ticket_columns = record {
  key = λ r. r.id;
  stamped = λ t r. record r { base = at_times t r.base };
  assign = λ new old. record old {
    base = updated_as new.base old.base;
    tenant_id = new.tenant_id;
    conversation_id = new.conversation_id;
    title = new.title;
    description = new.description;
    status = new.status;
    priority = new.priority;
    assigned_agent_id = new.assigned_agent_id;
  };
  clashes = λ x y. x.conversation_id == y.conversation_id;
}
