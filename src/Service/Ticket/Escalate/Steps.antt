-- ===== src/Service/Ticket/Escalate/Steps.antt =====
-- backend/internal/service/ticket_service.go: the steps of `EscalateConversation` before the ticket is
-- created.
use mathlib.Core.Bool.{false≢true}
use sociomile.Prelude.{
  String, ◌≡◌, inl, inr, refl, sym, ap, ◌∙◌, Bool, true, false, none, some, Member,
}
use sociomile.Model.{Db, User, Conversation, Ticket}
use sociomile.Model.Schema
use sociomile.Exec.{State}
use sociomile.Exec.Ends.{Ends, ends_if, ends_pure, ends_fail, ends_catch, ends_weaken}
use sociomile.Gorm.{Gorm, unordered}
use sociomile.Gorm.Laws.{GormLaws}
use sociomile.Gorm.Session.Rules.{Reads, reads_seq, Missing, IsFault}
use sociomile.Gorm.Session.Writes.{save_ends}
use sociomile.Repository.Tables
use sociomile.Repository.Filters.{is_none, ticket_of, is_not_found}
use sociomile.Repository.Store.{save_conversation}
use sociomile.Repository.Store.Rules.{is_found, IsLoaded, find_ticket_reads}
use sociomile.Repository.Store.Rewrite.{rewrite_saved}
use sociomile.Service.Conversation.Assignment.{
  elsewhere_free, own_key, loaded_id, is_free, is_taken,
}
use sociomile.Service.Conversation.{assigned_elsewhere}
use sociomile.Service.Ticket.{has_ticket, take_if_free}
use sociomile.Service.Ticket.Escalate.Effect.{Taken}

-- A ticket of the conversation, or none.
abbrev pub TicketSeen : String → String → Db → Bool → Type 0
TicketSeen tenant_id id d true =
    (t : Ticket) × Member t d.tickets × (ticket_of tenant_id id t ≡ true)
TicketSeen tenant_id id d false =
    (t : Ticket) → Member t d.tickets → ticket_of tenant_id id t ≡ false

pub seen_true :
    (tenant_id id : String) (d : Db) (b : Bool)
    → TicketSeen tenant_id id d b
    → b ≡ true
    → TicketSeen tenant_id id d true
seen_true tenant_id id d true h e = h
seen_true tenant_id id d false h e = absurd (false≢true e)

pub seen_false :
    (tenant_id id : String) (d : Db) (b : Bool)
    → TicketSeen tenant_id id d b
    → b ≡ false
    → TicketSeen tenant_id id d false
seen_false tenant_id id d false h e = h
seen_false tenant_id id d true h e = absurd (false≢true (sym e))

module _ {W : Type 0} (g : Gorm W) (laws : GormLaws g) (tenant_id id : String) (s : State W) where
  pub has_ticket_reads : Reads (has_ticket g tenant_id id) s (TicketSeen tenant_id id s.db) IsFault
  unfolding has_ticket
  has_ticket_reads = record {
    reads =
        ends_catch _ _ {P = λ b s'. (s'.db ≡ s.db) × TicketSeen tenant_id id s.db b}
          {F = λ e s'. (s'.db ≡ s.db) × Missing (unordered (ticket_of tenant_id id)) s.db.tickets e}
          (reads_seq _ _ (find_ticket_reads g laws s tenant_id id)
            (λ t w found. ends_pure true (refl, (found.0, found.1.0, found.1.1)))
            (λ e w f. (refl, f)))
          (λ t s' p. p)
          (λ e s' p.
            ends_if (is_not_found e) _ _
              (λ missing. ends_pure false (p.0, p.1.1 (is_found e missing)))
              (λ other.
                ends_fail e (p.0, (p.1.0, λ n. false≢true (sym other ∙ ap is_not_found n)))));
  }

  module _ (agent : User) (c : Conversation) (loaded : IsLoaded s.db tenant_id id c)
      (free : assigned_elsewhere c.assigned_agent_id agent.id ≡ false) where
    pub take_ends :
        Ends
          (take_if_free g agent c)
          s
          (λ taken s'. Taken tenant_id id agent.id s.db loaded.row taken s'.db)
          (λ e s'. IsFault e)
    unfolding take_if_free save_conversation
    take_ends =
        ends_if (is_none c.assigned_agent_id) _ _
          (λ none_yet.
            let unassigned : loaded.row.assigned_agent_id ≡ none =
              sym loaded.preloaded.same_assignee ∙ is_free c.assigned_agent_id none_yet in
            ends_weaken _ (save_ends g laws s Tables.conversations Schema.conversations _)
              (λ taken s' (rows, kept, same).
                let (rewritten, status, key, same_id) =
                  rewrite_saved s.db tenant_id id c loaded (some agent.id) _ c.updated_at kept in
                let owner : taken.assigned_agent_id ≡ some agent.id =
                  key
                  ∙ own_key (λ u. u.id) _ s.db.users c.assigned_agent loaded.preloaded.agent_loaded
                      _ (inl unassigned) in
                record {
                  rows = rows;
                  frame = same;
                  same_id = same_id;
                  owner = owner;
                  is_taken = record {
                    change =
                        inr (
                          unassigned,
                          (Schema.conversation_columns taken, rewritten, owner, status),
                        );
                  };
                })
              (λ e s' f. f.1))
          (λ some_one. ends_pure c (record {
            rows = s.db.conversations;
            frame = refl;
            same_id = loaded_id s.db tenant_id id c loaded;
            owner =
                is_taken c.assigned_agent_id agent.id some_one
                  (elsewhere_free c.assigned_agent_id agent.id free);
            is_taken = record {
              change = inl (
                sym loaded.preloaded.same_assignee
                    ∙ is_taken c.assigned_agent_id agent.id some_one
                        (elsewhere_free c.assigned_agent_id agent.id free),
                refl,
              );
            };
          }))
