-- ===== src/Service/Ticket/Escalate/Transaction.antt =====
-- backend/internal/service/ticket_service.go: the transaction of `EscalateConversation`.
use sociomile.Prelude.{
  String, ◌≡◌, refl, sym, ap, ◌∙◌, false, none, List, [], ◌∷◌, ◌++◌, ◌==◌, eq_iff, subst,
}
use sociomile.Model.{
  Db, User, Conversation, Ticket, ActivityLog, OutboxEvent, unsaved, conversation_status_closed,
  ticket_status_open, fields_payload, ticket_payload,
}
use sociomile.Model.Schema
use sociomile.Exec.{State}
use sociomile.Exec.Ends.{Ends, ends_at, ends_seq, ends_guard, ends_pure}
use sociomile.Gorm.{Gorm}
use sociomile.Gorm.Laws.{GormLaws, IsCreated, beside}
use sociomile.Gorm.Session.Rules.{reads_seq, create_seq}
use sociomile.Repository.Tables
use sociomile.Repository.Store.{create_ticket}
use sociomile.Repository.Store.Rules.{IsLoaded, get_conversation_reads}
use sociomile.Service.Events.Rules.{IsAppended, append_seq}
use sociomile.Service.Conversation.Assignment.{elsewhere_taken, loaded_row, loaded_status}
use sociomile.Service.Ticket.{EscalateTicketInput, escalate_conversation_tx}
use sociomile.Service.Ticket.Escalate.Effect.{
  Taken, IsEscalated, EscalateRefused, fault, unavailable, closed, elsewhere, has_one,
}
use sociomile.Service.Ticket.Escalate.Steps.{
  TicketSeen, seen_true, seen_false, has_ticket_reads, take_ends,
}

-- The literal that `EscalateConversation` gives to `CreateTicket`.
abbrev new_ticket : String → EscalateTicketInput → Conversation → Ticket
new_ticket tenant_id input c = record {
  base = unsaved;
  tenant_id = tenant_id;
  conversation_id = c.id;
  title = input.title;
  description = input.description;
  status = ticket_status_open;
  priority = input.priority;
  assigned_agent_id = c.assigned_agent_id;
  assigned_agent = none;
}

module _ (d : Db) (tenant_id id : String) (agent : User) (input : EscalateTicketInput)
    (c : Conversation) (loaded : IsLoaded d tenant_id id c) (taken : Conversation) (t : Db)
    (took : Taken tenant_id id agent.id d loaded.row taken t) (ticket : Ticket)
    (tickets : List Ticket)
    (made : IsCreated Schema.tickets
      (new_ticket tenant_id input taken)
      d.tickets
      ticket
      tickets) where
  stored_ticket : tickets ≡ d.tickets ++ ticket ∷ []
  stored_ticket =
      made.added
      ∙ ap (λ x. d.tickets ++ x ∷ [])
          (λ i. record ticket {
            assigned_agent = sym (ap (λ (x : Ticket). x.assigned_agent) made.filled) i;
          })

  is_escalated :
      (logs logs' : List ActivityLog) (events events' : List OutboxEvent)
      → (c.status == conversation_status_closed) ≡ false
      → TicketSeen tenant_id id d false
      → IsAppended tenant_id "conversation.escalated" "conversation" taken.id
          (fields_payload (
            ("conversation_id", taken.id) ∷ ("ticket_id", ticket.id) ∷ ("agent_id", agent.id) ∷ []))
          d.activity_logs
          logs
          d.outbox_events
          events
      → IsAppended tenant_id "ticket.created" "ticket" ticket.id
          (ticket_payload ticket)
          logs
          logs'
          events
          events'
      → IsEscalated tenant_id id agent.id input d (record d {
        conversations = took.rows;
        tickets = tickets;
        activity_logs = logs';
        outbox_events = events';
      })
  is_escalated logs logs' events events' is_open unseen escalated created = record {
    row = loaded.row;
    listed = loaded.listed;
    asked_for = loaded_row d tenant_id id c loaded;
    was_open = loaded_status d tenant_id id c loaded _ is_open;
    taken = took.is_taken;
    no_ticket = unseen;
    ticket = ticket;
    fresh = made.fresh;
    added = stored_ticket;
    ticket_tenant = ap (λ (x : Ticket). x.tenant_id) made.filled;
    ticket_conversation = ap (λ (x : Ticket). x.conversation_id) made.filled ∙ took.same_id;
    ticket_title = ap (λ (x : Ticket). x.title) made.filled;
    ticket_description = ap (λ (x : Ticket). x.description) made.filled;
    ticket_status = ap (λ (x : Ticket). x.status) made.filled;
    ticket_priority = ap (λ (x : Ticket). x.priority) made.filled;
    ticket_assignee = ap (λ (x : Ticket). x.assigned_agent_id) made.filled ∙ took.owner;
    logs = logs;
    events = events;
    escalated =
        subst
          (λ k.
            IsAppended tenant_id "conversation.escalated" "conversation" k
              (fields_payload
                (("conversation_id", k) ∷ ("ticket_id", ticket.id) ∷ ("agent_id", agent.id) ∷ []))
              d.activity_logs logs d.outbox_events events)
          took.same_id escalated;
    created = created;
    frame = refl;
  }

module _ {W : Type 0} (g : Gorm W) (laws : GormLaws g) (tenant_id id : String) (agent : User)
    (input : EscalateTicketInput) (s : State W) where
  pub escalate_tx_ends :
      Ends
        (escalate_conversation_tx g tenant_id id agent input)
        s
        (λ ticket_id s'. IsEscalated tenant_id id agent.id input s.db s'.db)
        (λ e s'. EscalateRefused tenant_id id agent.id s.db e)
  unfolding escalate_conversation_tx create_ticket
  escalate_tx_ends =
      reads_seq _ _ (get_conversation_reads g laws s tenant_id id)
        (λ c w loaded.
          let asked_for = loaded_row s.db tenant_id id c loaded in
          ends_guard _ _ _
            (λ shut.
              closed loaded.row loaded.listed asked_for
                (sym loaded.preloaded.same_status ∙ (eq_iff _ _).0 shut) refl)
            (λ is_open.
              ends_guard _ _ _
                (λ other.
                  elsewhere loaded.row loaded.listed asked_for
                    (λ e. (elsewhere_taken _ _ other).0 (loaded.preloaded.same_assignee ∙ e))
                    (λ e. (elsewhere_taken _ _ other).1 (loaded.preloaded.same_assignee ∙ e)) refl)
                (λ free.
                  reads_seq _ _ (has_ticket_reads g laws tenant_id id (beside s w))
                    (λ exists w seen.
                      ends_guard _ _ _
                        (λ one.
                          let (t, m, fits) = seen_true tenant_id id s.db exists seen one in
                          has_one t m fits refl)
                        (λ no_one.
                          ends_seq _ _
                            (take_ends g laws tenant_id id (beside s w) agent c loaded free)
                            (λ taken t took.
                              ends_at _ t (record s.db { conversations = took.rows }) took.frame
                                (create_seq g laws
                                  (record {
                                    db = record s.db { conversations = took.rows };
                                    world = t.world;
                                  })
                                  Tables.tickets Schema.tickets _ _
                                  (λ ticket tickets w made.
                                    append_seq g laws _ tenant_id _ _ _ _ _
                                      (λ logs events w escalated.
                                        append_seq g laws _ tenant_id _ _ _ _ _
                                          (λ logs' events' w created. ends_pure _ (
                                            is_escalated s.db tenant_id id agent input c loaded
                                              taken t.db took ticket tickets made logs logs' events
                                              events' is_open
                                              (seen_false tenant_id id s.db exists seen no_one)
                                              escalated created))
                                          (λ e s' f. fault e f))
                                      (λ e s' f. fault e f))
                                  (λ e w f. fault e f)))
                            (λ e s' f. fault e f)))
                    (λ e w f. fault e f))))
        (λ e w missing. unavailable missing)
