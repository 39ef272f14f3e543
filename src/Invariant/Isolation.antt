-- ===== src/Invariant/Isolation.antt =====
-- backend/internal/service: what a call of one tenant leaves of the rows of another.
use sociomile.Prelude.{
  String, ◌≡◌, ◌≢◌, inl, inr, refl, sym, ap, ◌∙◌, subst⁻¹, false, List, ◌==◌, eq_iff, select,
  select-upsert, select-append_none, Unique-Member, Bool-cases, trim_space, arith,
}
use sociomile.Model.{Db, Conversation, Ticket, ActivityLog, OutboxEvent, Payload}
use sociomile.Model.Schema
use sociomile.Model.Schema.{key}
use sociomile.Exec.{State}
use sociomile.Gorm.{Gorm}
use sociomile.Gorm.Laws.{GormLaws}
use sociomile.Repository.Store.Rewrite.{IsRewritten}
use sociomile.Cache.{Client}
use sociomile.Service.Events.Rules.{IsAppended}
use sociomile.Service.Ticket.{EscalateTicketInput, normalized}
use sociomile.Service.Ticket.Escalate.Effect.{IsTaken, IsEscalated}
use sociomile.Service.Ticket.Status.{IsStatusSet}
use sociomile.Service.Webhook.{WebhookInput, trimmed}
use sociomile.Service.Webhook.Effect.{IsRouted, touched, opened, IsReceived}
use sociomile.Invariant.{IsWellFormed}
use sociomile.Invariant.Calls.{
  Request, receive, assign, reply, close, escalate, set_status, after, IsChange, after-IsChange,
}

-- The tenant that a call names; a webhook names it in its body, and is trimmed.
abbrev pub tenant_of : Request → String
tenant_of (receive input) = (trimmed input).tenant_id
tenant_of (assign tenant_id id actor_id actor_role agent_id) = tenant_id
tenant_of (reply tenant_id id agent_id message) = tenant_id
tenant_of (close tenant_id id actor_id actor_role) = tenant_id
tenant_of (escalate tenant_id id agent_id input) = tenant_id
tenant_of (set_status tenant_id id actor_id actor_role status) = tenant_id

-- The rows of the tenant `other` are the same rows, in the same order, and so are all users.
pub record IsApart (other : String) (d d' : Db) : Type 0 where
  pub conversations :
      select (λ c. c.tenant_id == other) d'.conversations
      ≡ select (λ c. c.tenant_id == other) d.conversations
  pub tickets :
      select (λ t. t.tenant_id == other) d'.tickets ≡ select (λ t. t.tenant_id == other) d.tickets
  pub logs :
      select (λ l. l.tenant_id == other) d'.activity_logs
      ≡ select (λ l. l.tenant_id == other) d.activity_logs
  pub events :
      select (λ e. e.tenant_id == other) d'.outbox_events
      ≡ select (λ e. e.tenant_id == other) d.outbox_events
  pub users : d'.users ≡ d.users

differs : (a b c : String) → b ≢ c → a ≡ b → (a == c) ≡ false
differs a b c n e = elim (Bool-cases (a == c)) [
  | inl same ↦ absurd (n (sym e ∙ (eq_iff _ _).0 same))
  | inr other ↦ other
]

module _ (tenant_id other : String) (n : tenant_id ≢ other) where
  rewritten_apart :
      (d : Db) (id : String) (row stored : Conversation) (rows : List Conversation)
      → IsWellFormed d
      → IsRewritten d tenant_id id row stored rows
      → select (λ c. c.tenant_id == other) rows ≡ select (λ c. c.tenant_id == other) d.conversations
  rewritten_apart d id row stored rows sound r =
      ap (select (λ (c : Conversation). c.tenant_id == other)) r.replaced
      ∙ select-upsert (key Schema.conversations) (λ c. c.tenant_id == other) stored d.conversations
          (differs stored.tenant_id tenant_id other n r.stored_tenant)
          (λ x m same. differs x.tenant_id tenant_id other n (
            ap (λ (c : Conversation). c.tenant_id)
              (Unique-Member (key Schema.conversations) x row d.conversations sound.conversation_ids
                m r.listed (same ∙ (r.stored_id ∙ sym r.row_id)))
            ∙ r.row_tenant))

  appended_apart :
      {event_type entity_type entity_id : String} {payload : Payload}
      (old_logs logs : List ActivityLog) (old_events events : List OutboxEvent)
      → IsAppended tenant_id event_type entity_type entity_id payload old_logs logs old_events
          events
      → (select (λ l. l.tenant_id == other) logs ≡ select (λ l. l.tenant_id == other) old_logs)
        × (select (λ e. e.tenant_id == other) events
            ≡ select (λ e. e.tenant_id == other) old_events)
  appended_apart old_logs logs old_events events a = (
    ap (select (λ (l : ActivityLog). l.tenant_id == other)) a.logged
        ∙ select-append_none (λ l. l.tenant_id == other) old_logs a.log
            (differs a.log.tenant_id tenant_id other n a.log_tenant),
    ap (select (λ (e : OutboxEvent). e.tenant_id == other)) a.queued
        ∙ select-append_none (λ e. e.tenant_id == other) old_events a.event
            (differs a.event.tenant_id tenant_id other n a.event_tenant),
  )

  module _ (d d' : Db) (id : String) (sound : IsWellFormed d) where
    -- A conversation is rewritten, and one event is added.
    conversation-IsApart :
        {event_type entity_type entity_id : String} {payload : Payload} (row stored : Conversation)
        → IsRewritten d tenant_id id row stored d'.conversations
        → IsAppended tenant_id event_type entity_type entity_id payload d.activity_logs
            d'.activity_logs d.outbox_events d'.outbox_events
        → d'.tickets ≡ d.tickets
        → d'.users ≡ d.users
        → IsApart other d d'
    conversation-IsApart row stored r a tickets users = record {
      conversations = rewritten_apart d id row stored d'.conversations sound r;
      tickets = ap (select (λ (t : Ticket). t.tenant_id == other)) tickets;
      logs = (appended_apart d.activity_logs d'.activity_logs d.outbox_events d'.outbox_events a).0;
      events =
          (appended_apart d.activity_logs d'.activity_logs d.outbox_events d'.outbox_events a).1;
      users = users;
    }

    taken_apart :
        (agent_id : String) (row : Conversation)
        → IsTaken tenant_id id agent_id d row d'.conversations
        → select (λ c. c.tenant_id == other) d'.conversations
          ≡ select (λ c. c.tenant_id == other) d.conversations
    taken_apart agent_id row t = elim t.change [
      | inl (own, same) ↦ ap (select (λ (c : Conversation). c.tenant_id == other)) same
      | inr (free, (stored, rewritten, owner, status)) ↦
          rewritten_apart d id row stored d'.conversations sound rewritten
    ]

    escalated-IsApart :
        (agent_id : String) (input : EscalateTicketInput)
        → IsEscalated tenant_id id agent_id input d d'
        → IsApart other d d'
    escalated-IsApart agent_id input r =
        let first = appended_apart d.activity_logs r.logs d.outbox_events r.events r.escalated in
        let second = appended_apart r.logs d'.activity_logs r.events d'.outbox_events r.created in
        record {
          conversations = taken_apart agent_id r.row r.taken;
          tickets =
              ap (select (λ (t : Ticket). t.tenant_id == other)) r.added
              ∙ select-append_none (λ t. t.tenant_id == other) d.tickets r.ticket
                  (differs r.ticket.tenant_id tenant_id other n r.ticket_tenant);
          logs = second.0 ∙ first.0;
          events = second.1 ∙ first.1;
          users = ap (λ x. x.users) r.frame;
        }

    status-IsApart : (status : String) → IsStatusSet tenant_id id status d d' → IsApart other d d'
    status-IsApart status r =
        let of_tenant : r.row.tenant_id ≡ tenant_id =
          ground (arith, r.asked_for, eq_iff r.row.tenant_id tenant_id, eq_iff r.row.id id) in
        record {
          conversations =
              ap (λ x. select (λ (c : Conversation). c.tenant_id == other) x.conversations) r.frame;
          tickets =
              ap (select (λ (t : Ticket). t.tenant_id == other)) r.replaced
              ∙ select-upsert (key Schema.tickets) (λ t. t.tenant_id == other) r.stored d.tickets
                  (differs r.stored.tenant_id tenant_id other n (r.stored_tenant ∙ of_tenant))
                  (λ x m same. differs x.tenant_id tenant_id other n (
                    ap (λ (t : Ticket). t.tenant_id)
                      (Unique-Member (key Schema.tickets) x r.row d.tickets sound.ticket_ids m
                        r.listed (same ∙ r.stored_id))
                    ∙ of_tenant));
          logs =
              (appended_apart d.activity_logs d'.activity_logs d.outbox_events d'.outbox_events
                r.event).0;
          events =
              (appended_apart d.activity_logs d'.activity_logs d.outbox_events d'.outbox_events
                r.event).1;
          users = ap (λ x. x.users) r.frame;
        }

IsApart-same : (other : String) (d : Db) → IsApart other d d
IsApart-same other d = record {
  conversations = refl;
  tickets = refl;
  logs = refl;
  events = refl;
  users = refl;
}

module _ (input : WebhookInput) (other id : String) (d d' : Db) (n : input.tenant_id ≢ other)
    (sound : IsWellFormed d) where
  received-IsApart : IsReceived input id d d' → IsApart other d d'
  received-IsApart r = routed_apart r.routed
    where
      routed_apart :
          IsRouted input.tenant_id r.customer.id r.channel.id id r.message d d' → IsApart other d d'
      routed_apart (touched t announced) =
          conversation-IsApart input.tenant_id other n d d' id sound t.row t.stored t.rewritten
            announced (ap (λ x. x.tickets) r.frame) (ap (λ x. x.users) r.frame)
      routed_apart (opened c o logs events created announced) =
          let first =
            appended_apart input.tenant_id other n d.activity_logs logs d.outbox_events events
              created in
          let second =
            appended_apart input.tenant_id other n logs d'.activity_logs events d'.outbox_events
              announced in
          record {
            conversations =
                ap (select (λ (c : Conversation). c.tenant_id == other)) o.added
                ∙ select-append_none (λ c. c.tenant_id == other) d.conversations
                    (Schema.conversation_columns c)
                    (differs c.tenant_id input.tenant_id other n o.tenant);
            tickets = ap (λ x. select (λ (t : Ticket). t.tenant_id == other) x.tickets) r.frame;
            logs = second.0 ∙ first.0;
            events = second.1 ∙ first.1;
            users = ap (λ x. x.users) r.frame;
          }

changed-IsApart :
    (r : Request) (other : String) (d d' : Db)
    → tenant_of r ≢ other
    → IsWellFormed d
    → IsChange r d d'
    → IsApart other d d'
changed-IsApart (receive input) other d d' n sound (id, c) =
    received-IsApart (trimmed input) other id d d' n sound c
changed-IsApart (assign tenant_id id actor_id actor_role agent_id) other d d' n sound (agent, c) =
    conversation-IsApart tenant_id other n d d' id sound c.row c.stored c.rewritten c.event
      (ap (λ x. x.tickets) c.frame) (ap (λ x. x.users) c.frame)
changed-IsApart (reply tenant_id id agent_id message) other d d' n sound (agent, c) =
    conversation-IsApart tenant_id other n d d' id sound c.row c.stored c.rewritten c.event
      (ap (λ x. x.tickets) c.frame) (ap (λ x. x.users) c.frame)
changed-IsApart (close tenant_id id actor_id actor_role) other d d' n sound c = elim c.change [
  | inl (was, same) ↦ subst⁻¹ (IsApart other d) same (IsApart-same other d)
  | inr x ↦
      conversation-IsApart tenant_id other n d d' id sound c.row x.stored x.rewritten x.event
        (ap (λ x. x.tickets) x.frame) (ap (λ x. x.users) x.frame)
]
changed-IsApart (escalate tenant_id id agent_id input) other d d' n sound (agent, c) =
    escalated-IsApart tenant_id other n d d' id sound agent.id (normalized input) c
changed-IsApart (set_status tenant_id id actor_id actor_role status) other d d' n sound c =
    status-IsApart tenant_id other n d d' id sound (trim_space status) c

-- In tables that are well formed, a call in the name of one tenant leaves the conversations, the
-- tickets, the activity log and the outbox of every other tenant as they were, and every user,
-- whether it succeeds or fails.
pub after-IsApart :
    {W : Type 0} (g : Gorm W) (laws : GormLaws g) (cache : Client W) (s : State W) (r : Request)
    (other : String)
    → tenant_of r ≢ other
    → IsWellFormed s.db
    → IsApart other s.db (after g cache r s).db
after-IsApart g laws cache s r other n sound = elim (after-IsChange g laws cache s r) [
  | inl same ↦ subst⁻¹ (IsApart other s.db) same (IsApart-same other s.db)
  | inr c ↦ changed-IsApart r other s.db (after g cache r s).db n sound c
]
