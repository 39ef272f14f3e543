-- ===== src/Repository/Store/Rules.antt =====
-- What the reads of the store return, as rules of `Ends`.
use mathlib.Core.Bool.{false≢true}
use sociomile.Prelude.{
  String, ◌≡◌, refl, sym, Bool, true, false, ◌≢◌, ltb, Option, none, some, List, Member, ◌==◌,
  arith, eq_iff, ◌&&◌, ap, ◌∙◌,
}
use sociomile.Apperror.{Error, record_not_found}
use sociomile.Model.{Db, User, Conversation, Message, Ticket}
use sociomile.Exec.{State, ◌>>=◌}
use sociomile.Exec.Ends.{ends_pure, ends_fail, ends_catch, ends_if, ends_weaken}
use sociomile.Gorm.{Gorm, Query, IsPage, unordered}
use sociomile.Gorm.Laws.{GormLaws, beside}
use sociomile.Gorm.Session.{first}
use sociomile.Gorm.Session.Rules.{
  Reads, reads_seq, Found, Missing, Loaded, IsFault, first_reads, preload_reads, find_reads,
}
use sociomile.Repository.Tables
use sociomile.Repository.Filters.{user_in, conversation_in, ticket_of, ticket_in, is_not_found}
use sociomile.Repository.Store.{
  get_user_by_id_and_tenant, preload_conversation, ticket_or_none, get_conversation_by_id,
  find_ticket_by_conversation, preload_ticket, get_ticket_by_id,
}

-- A record of the conversation with what `Preload` has loaded beside it.
pub record IsPreloaded (d : Db) (row c : Conversation) : Type 0 where
  pub same_base : c.base ≡ row.base
  pub same_tenant : c.tenant_id ≡ row.tenant_id
  pub same_customer : c.customer_id ≡ row.customer_id
  pub same_channel : c.channel_id ≡ row.channel_id
  pub same_status : c.status ≡ row.status
  pub same_assignee : c.assigned_agent_id ≡ row.assigned_agent_id
  pub customer_loaded : Loaded (λ r. r.id) (some row.customer_id) d.customers c.customer
  pub channel_loaded : Loaded (λ r. r.id) (some row.channel_id) d.channels c.channel
  pub agent_loaded : Loaded (λ r. r.id) row.assigned_agent_id d.users c.assigned_agent

module _ {W : Type 0} (g : Gorm W) (laws : GormLaws g) (s : State W) where
  pub get_user_reads :
      (user_id tenant_id : String)
      → Reads
          (get_user_by_id_and_tenant g user_id tenant_id)
          s
          (Found (unordered (user_in user_id tenant_id)) s.db.users)
          (Missing (unordered (user_in user_id tenant_id)) s.db.users)
  unfolding get_user_by_id_and_tenant
  get_user_reads user_id tenant_id =
      first_reads g laws s Tables.users (unordered (user_in user_id tenant_id))

  pub preload_conversation_reads :
      (row : Conversation) → Reads (preload_conversation g row) s (IsPreloaded s.db row) IsFault
  unfolding preload_conversation
  preload_conversation_reads row = record {
    reads =
        reads_seq _ _ (preload_reads g laws s Tables.customers (λ r. r.id) (some row.customer_id))
          (λ customer w lc.
            reads_seq _ _
              (preload_reads g laws (beside s w) Tables.channels (λ r. r.id) (some row.channel_id))
              (λ channel w lch.
                reads_seq _ _
                  (preload_reads g laws (beside s w) Tables.users (λ r. r.id) row.assigned_agent_id)
                  (λ agent w la. ends_pure _ (
                    refl,
                    record {
                      same_base = refl;
                      same_tenant = refl;
                      same_customer = refl;
                      same_channel = refl;
                      same_status = refl;
                      same_assignee = refl;
                      customer_loaded = lc;
                      channel_loaded = lch;
                      agent_loaded = la;
                    },
                  ))
                  (λ e w f. (refl, f)))
              (λ e w f. (refl, f)))
          (λ e w f. (refl, f));
  }

-- A record of the ticket with the agent that `Preload` has loaded beside it.
pub record IsLoadedTicket (d : Db) (row t : Ticket) : Type 0 where
  pub agent : Option User
  pub fields : t ≡ record row { assigned_agent = agent }
  pub agent_loaded : Loaded (λ r. r.id) row.assigned_agent_id d.users agent

-- A ticket that a query found, loaded.
abbrev pub TicketFound : Db → Query Ticket → Ticket → Type 0
TicketFound d q t = (row : Ticket) × Found q d.tickets row × IsLoadedTicket d row t

-- What `GetConversationByID` returns: a row of the tenant with that identifier, its associations,
-- and the ticket of the conversation where there is one.
pub record IsLoaded (d : Db) (tenant_id id : String) (c : Conversation) : Type 0 where
  pub row : Conversation
  pub listed : Member row d.conversations
  pub of_tenant : row.tenant_id ≡ tenant_id
  pub same_id : row.id ≡ id
  pub preloaded : IsPreloaded d row c

-- The messages of a conversation, first created first.
abbrev pub IsThread : Db → String → List Message → Type 0
IsThread d id messages =
    IsPage
      (record {
        matches = λ r. r.conversation_id == id;
        before = λ a b. ltb a.created_at b.created_at;
      })
      0 none d.messages messages

-- The ticket of a conversation, with its agent, and none only where there is none.
abbrev pub IsTicketOf : Db → String → String → Option Ticket → Type 0
IsTicketOf d tenant_id id none =
    (x : Ticket) → Member x d.tickets → x.tenant_id ≡ tenant_id → x.conversation_id ≢ id
IsTicketOf d tenant_id id (some t) =
    (row : Ticket) × Member row d.tickets
    × (row.tenant_id ≡ tenant_id)
    × (row.conversation_id ≡ id)
    × IsLoadedTicket d row t

-- A conversation as it stands in the tables, with all that the service returns of it.
pub record IsShown (d : Db) (tenant_id id : String) (c : Conversation) : Type 0 where
  pub loaded : IsLoaded d tenant_id id c
  pub thread : IsThread d id c.messages
  pub ticket : IsTicketOf d tenant_id id c.ticket

pub both_true : (a b : Bool) → (a && b) ≡ true → (a ≡ true) × (b ≡ true)
both_true a b h = ground arith

module _ {W : Type 0} (g : Gorm W) (laws : GormLaws g) (s : State W) where
  pub preload_ticket_reads :
      (row : Ticket) → Reads (preload_ticket g row) s (IsLoadedTicket s.db row) IsFault
  unfolding preload_ticket
  preload_ticket_reads row = record {
    reads =
        reads_seq _ _ (preload_reads g laws s Tables.users (λ r. r.id) row.assigned_agent_id)
          (λ agent w la.
            ends_pure _ (refl, record { agent = agent; fields = refl; agent_loaded = la }))
          (λ e w f. (refl, f));
  }

-- The test for a missing record.
pub is_found : (e : Error) → is_not_found e ≡ true → e ≡ record_not_found
is_found record_not_found h = refl
is_found _ h = absurd (false≢true h)

-- A fault is no statement that a record is missing.
pub IsFault-Missing :
    {R : Type 0} (q : Query R) (rows : List R) (e : Error) → IsFault e → Missing q rows e
IsFault-Missing q rows e f = (f.0, λ n. absurd (f.1 n))

module _ {W : Type 0} (g : Gorm W) (laws : GormLaws g) (s : State W) where
  ticket_first_reads :
      (q : Query Ticket)
      → Reads
          (first g Tables.tickets q >>= preload_ticket g)
          s
          (TicketFound s.db q)
          (Missing q s.db.tickets)
  ticket_first_reads q = record {
    reads =
        reads_seq _ _ (first_reads g laws s Tables.tickets q)
          (λ row w found.
            ends_weaken _ (preload_ticket_reads g laws (beside s w) row).reads
              (λ t s' p. (p.0, (row, found, p.1))) (λ e s' p. (p.0, IsFault-Missing q _ e p.1)))
          (λ e w f. (refl, f));
  }

  pub find_ticket_reads :
      (tenant_id conversation_id : String)
      → Reads
          (find_ticket_by_conversation g tenant_id conversation_id)
          s
          (TicketFound s.db (unordered (ticket_of tenant_id conversation_id)))
          (Missing (unordered (ticket_of tenant_id conversation_id)) s.db.tickets)
  unfolding find_ticket_by_conversation
  find_ticket_reads tenant_id conversation_id =
      ticket_first_reads (unordered (ticket_of tenant_id conversation_id))

  pub get_ticket_reads :
      (tenant_id id : String)
      → Reads
          (get_ticket_by_id g tenant_id id)
          s
          (TicketFound s.db (unordered (ticket_in tenant_id id)))
          (Missing (unordered (ticket_in tenant_id id)) s.db.tickets)
  unfolding get_ticket_by_id
  get_ticket_reads tenant_id id = ticket_first_reads (unordered (ticket_in tenant_id id))

  ticket_or_none_reads :
      (tenant_id conversation_id : String)
      → Reads
          (ticket_or_none g tenant_id conversation_id)
          s
          (IsTicketOf s.db tenant_id conversation_id)
          IsFault
  unfolding ticket_or_none
  ticket_or_none_reads tenant_id conversation_id = record {
    reads =
        ends_catch _ _ {P = λ t s'. (s'.db ≡ s.db) × IsTicketOf s.db tenant_id conversation_id t}
          {F = λ e s'.
            (s'.db ≡ s.db)
            × Missing (unordered (ticket_of tenant_id conversation_id)) s.db.tickets e}
          (reads_seq _ _ (find_ticket_reads tenant_id conversation_id)
            (λ t w found.
              let fits =
                both_true (found.0.tenant_id == tenant_id)
                  (found.0.conversation_id == conversation_id) found.1.1 in
              ends_pure _
                (refl, (found.0, found.1.0, (eq_iff _ _).0 fits.0, (eq_iff _ _).0 fits.1, found.2)))
            (λ e w f. (refl, f)))
          (λ t s' p. p)
          (λ e s' p.
            ends_if (is_not_found e) _ _
              (λ missing.
                ends_pure _ (p.0, λ x m a b. unmatched x a b (p.1.1 (is_found e missing) x m)))
              (λ other.
                ends_fail _ (p.0, (p.1.0, λ n. false≢true (sym other ∙ ap is_not_found n)))));
  }
    where
      unmatched :
          (x : Ticket)
          → x.tenant_id ≡ tenant_id
          → x.conversation_id ≡ conversation_id
          → ticket_of tenant_id conversation_id x ≢ false
      unmatched x a b h =
          ground (arith, eq_iff x.tenant_id tenant_id, eq_iff x.conversation_id conversation_id)

module _ {W : Type 0} (g : Gorm W) (laws : GormLaws g) (s : State W) where
  pub get-IsShown_reads :
      (tenant_id id : String)
      → Reads
          (get_conversation_by_id g tenant_id id)
          s
          (IsShown s.db tenant_id id)
          (Missing (unordered (conversation_in tenant_id id)) s.db.conversations)
  unfolding get_conversation_by_id
  get-IsShown_reads tenant_id id = record {
    reads =
        reads_seq _ _
          (first_reads g laws s Tables.conversations (unordered (conversation_in tenant_id id)))
          (λ row w found.
            reads_seq _ _ (preload_conversation_reads g laws (beside s w) row)
              (λ c w pre.
                reads_seq _ _ (find_reads g laws (beside s w) Tables.messages _ 0 none)
                  (λ messages w page.
                    reads_seq _ _ (ticket_or_none_reads g laws (beside s w) tenant_id id)
                      (λ ticket w t. ends_pure _ (
                        refl,
                        record {
                          loaded = loaded row c found pre messages ticket;
                          thread = page;
                          ticket = t;
                        },
                      ))
                      (λ e w f.
                        (refl, IsFault-Missing (unordered (conversation_in tenant_id id)) _ e f)))
                  (λ e w f.
                    (refl, IsFault-Missing (unordered (conversation_in tenant_id id)) _ e f)))
              (λ e w f. (refl, IsFault-Missing (unordered (conversation_in tenant_id id)) _ e f)))
          (λ e w f. (refl, f));
  }
    where
      loaded :
          (row c : Conversation)
          → Found (unordered (conversation_in tenant_id id)) s.db.conversations row
          → IsPreloaded s.db row c
          → (messages : List Message) (ticket : Option Ticket)
          → IsLoaded s.db tenant_id id (record c { messages = messages; ticket = ticket })
      loaded row c found pre messages ticket = record {
        row = row;
        listed = found.0;
        of_tenant =
            (eq_iff row.tenant_id tenant_id).0
              (both_true (row.tenant_id == tenant_id) (row.id == id) found.1).0;
        same_id =
            (eq_iff row.id id).0 (both_true (row.tenant_id == tenant_id) (row.id == id) found.1).1;
        preloaded = record {
          same_base = pre.same_base;
          same_tenant = pre.same_tenant;
          same_customer = pre.same_customer;
          same_channel = pre.same_channel;
          same_status = pre.same_status;
          same_assignee = pre.same_assignee;
          customer_loaded = pre.customer_loaded;
          channel_loaded = pre.channel_loaded;
          agent_loaded = pre.agent_loaded;
        };
      }

  pub get_conversation_reads :
      (tenant_id id : String)
      → Reads
          (get_conversation_by_id g tenant_id id)
          s
          (IsLoaded s.db tenant_id id)
          (Missing (unordered (conversation_in tenant_id id)) s.db.conversations)
  get_conversation_reads tenant_id id = record {
    reads =
        ends_weaken _ (get-IsShown_reads tenant_id id).reads (λ c s' p. (p.0, p.1.loaded))
          (λ e s' p. p);
  }
