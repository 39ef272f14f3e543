-- ===== src/Seeds/Load.antt =====
-- backend/seeds/default.go: `LoadDemoData`.
use sociomile.Prelude.{String, List}
use sociomile.Exec.{Result, Exec, ◌>>=◌, ◌>>◌, outside}
use sociomile.Gorm.Session.{Table, updated}
use sociomile.Repository.Tables
use sociomile.Seeds.Columns.{
  OnConflict, Clauses, tenant_columns, user_columns, channel_columns, customer_columns,
  conversation_columns, message_columns, ticket_columns,
}
use sociomile.Seeds.Demo.{
  demo_tenants, demo_users, demo_channels, demo_customers, demo_conversations, demo_messages,
  demo_tickets,
}

module _ {W : Type 0} (clauses : Clauses W) where
  -- `upsert`
  unfoldable pub upsert : {R : Type 0} → Table R → OnConflict R → List R → Exec W (Unit {0})
  upsert t columns values s = updated t s (clauses.create columns values (t.rows s.db) s.world)

  -- `LoadDemoData`, with `bcrypt.GenerateFromPassword` of a password at the default cost
  unfoldable pub load_demo_data : (String → W → Result String × W) → Exec W (Unit {0})
  load_demo_data generate_from_password = do
    password_hash ← outside (generate_from_password "Password123!")
    upsert Tables.tenants tenant_columns demo_tenants
    upsert Tables.users user_columns (demo_users password_hash)
    upsert Tables.channels channel_columns demo_channels
    upsert Tables.customers customer_columns demo_customers
    upsert Tables.conversations conversation_columns demo_conversations
    upsert Tables.messages message_columns demo_messages
    upsert Tables.tickets ticket_columns demo_tickets
