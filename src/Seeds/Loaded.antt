-- ===== src/Seeds/Loaded.antt =====
-- backend/seeds/default.go: what `LoadDemoData` leaves in the tables.
use sociomile.Prelude.{String, ◌≡◌, refl, subst⁻¹, true}
use sociomile.Model.{Db}
use sociomile.Exec.{Result, ok, State}
use sociomile.Exec.Ends.{Ends, ends_ok, ends_weaken}
use sociomile.Gorm.Session.Rules.{outside_reads, reads_seq}
use sociomile.Repository.Tables
use sociomile.Seeds.Columns.{OnConflict, Clauses}
use sociomile.Seeds.Columns
use sociomile.Seeds.Demo
use sociomile.Seeds.Load.{load_demo_data}
use sociomile.Seeds.Rows.{clear, clear_lem}
use sociomile.Seeds.Upserted.{ClausesLaws, Filled, upsert_ends, upsert_then}

-- No row of the tables has another identifier than a demo record and the same slug, email, key of its
-- channel, external identifier or conversation.
pub record IsClear (d : Db) : Type 0 where
  pub tenants : clear Columns.tenant_columns Demo.demo_tenants d.tenants ≡ true
  pub users : clear Columns.user_columns (Demo.demo_users "") d.users ≡ true
  pub channels : clear Columns.channel_columns Demo.demo_channels d.channels ≡ true
  pub customers : clear Columns.customer_columns Demo.demo_customers d.customers ≡ true
  pub tickets : clear Columns.ticket_columns Demo.demo_tickets d.tickets ≡ true

-- The tables after the demo data was loaded under the hash of the password.
pub record IsLoaded (password_hash : String) (d d' : Db) : Type 0 where
  pub tenants : Filled Columns.tenant_columns Demo.demo_tenants d.tenants d'.tenants
  pub users : Filled Columns.user_columns (Demo.demo_users password_hash) d.users d'.users
  pub channels : Filled Columns.channel_columns Demo.demo_channels d.channels d'.channels
  pub customers : Filled Columns.customer_columns Demo.demo_customers d.customers d'.customers
  pub conversations :
      Filled Columns.conversation_columns Demo.demo_conversations d.conversations d'.conversations
  pub messages : Filled Columns.message_columns Demo.demo_messages d.messages d'.messages
  pub tickets : Filled Columns.ticket_columns Demo.demo_tickets d.tickets d'.tickets
  pub frame : d' ≡ record d {
    tenants = d'.tenants;
    users = d'.users;
    channels = d'.channels;
    customers = d'.customers;
    conversations = d'.conversations;
    messages = d'.messages;
    tickets = d'.tickets;
  }

module _ {W : Type 0} (clauses : Clauses W) (laws : ClausesLaws clauses) where
  load_demo_data_ends :
      (generate : String → W → Result String × W) (s : State W)
      → IsClear s.db
      → Ends
          (load_demo_data clauses generate)
          s
          (λ u s'. (hash : String) × IsLoaded hash s.db s'.db)
          (λ e s'. Unit {0})
  unfolding load_demo_data
  load_demo_data_ends generate s free =
      reads_seq _ _
        (outside_reads (generate "Password123!") s {P = λ h. Unit {0}} {F = λ e. Unit {0}}
          (λ h w e. tt) (λ e w x. tt))
        (λ hash w x.
          upsert_then clauses laws Tables.tenants Columns.tenant_columns Demo.demo_tenants _
            (record { stamped_key = λ t v. refl; assign_key = λ r x. refl }) refl refl free.tenants
            (λ r0 w0 filled0.
              upsert_then clauses laws Tables.users Columns.user_columns (Demo.demo_users hash) _
                (record { stamped_key = λ t v. refl; assign_key = λ r x. refl }) refl refl
                free.users
                (λ r1 w1 filled1.
                  upsert_then clauses laws Tables.channels Columns.channel_columns
                    Demo.demo_channels _
                    (record { stamped_key = λ t v. refl; assign_key = λ r x. refl }) refl refl
                    free.channels
                    (λ r2 w2 filled2.
                      upsert_then clauses laws Tables.customers Columns.customer_columns
                        Demo.demo_customers _
                        (record { stamped_key = λ t v. refl; assign_key = λ r x. refl }) refl refl
                        free.customers
                        (λ r3 w3 filled3.
                          upsert_then clauses laws Tables.conversations Columns.conversation_columns
                            Demo.demo_conversations _
                            (record { stamped_key = λ t v. refl; assign_key = λ r x. refl }) refl
                            refl
                            (clear_lem Columns.conversation_columns (λ x y. refl)
                              Demo.demo_conversations s.db.conversations)
                            (λ r4 w4 filled4.
                              upsert_then clauses laws Tables.messages Columns.message_columns
                                Demo.demo_messages _
                                (record { stamped_key = λ t v. refl; assign_key = λ r x. refl })
                                refl refl
                                (clear_lem Columns.message_columns (λ x y. refl) Demo.demo_messages
                                  s.db.messages)
                                (λ r5 w5 filled5.
                                  ends_weaken _
                                    (upsert_ends clauses laws
                                      (record {
                                        db = record s.db {
                                          tenants = r0;
                                          users = r1;
                                          channels = r2;
                                          customers = r3;
                                          conversations = r4;
                                          messages = r5;
                                        };
                                        world = w5;
                                      })
                                      Tables.tickets Columns.ticket_columns Demo.demo_tickets
                                      free.tickets
                                      (record {
                                        stamped_key = λ t v. refl;
                                        assign_key = λ r x. refl;
                                      })
                                      refl refl)
                                    (λ u s' (r6, same, filled6). (
                                      hash,
                                      subst⁻¹ (IsLoaded hash s.db) same (record {
                                        tenants = filled0;
                                        users = filled1;
                                        channels = filled2;
                                        customers = filled3;
                                        conversations = filled4;
                                        messages = filled5;
                                        tickets = filled6;
                                        frame = refl;
                                      }),
                                    ))
                                    (λ e t y. tt))))))))
        (λ e w x. tt)

  -- Where no row of the tables has another identifier than a demo record and the same slug, email,
  -- channel key, external identifier or conversation, demo data that loads leaves, in each of its
  -- seven tables, one row with the identifier of each demo record: the demo record, or the row that
  -- was there with the columns of the record that it is told to take; the rows with other
  -- identifiers stay, none is added, and the activity log and the outbox are left alone.
  pub load_demo_data_ok :
      (generate : String → W → Result String × W) (s s' : State W)
      → IsClear s.db
      → load_demo_data clauses generate s ≡ (ok tt, s')
      → (hash : String) × IsLoaded hash s.db s'.db
  load_demo_data_ok generate s s' free e = ends_ok (load_demo_data_ends generate s free) tt s' e
