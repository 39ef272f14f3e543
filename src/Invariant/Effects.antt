-- ===== src/Invariant/Effects.antt =====
-- What the transactions of backend/internal/service do to the tables keeps the invariant.
use mathlib.Core.Bool.{false≢true}
use sociomile.Prelude.{
  String, ◌≡◌, ◌≢◌, inl, inr, refl, sym, ap, ◌∙◌, subst⁻¹, true, none, some, Option, Member, eq_iff,
  Unique-Member, upsert-Member, if◌then◌else◌, arith,
}
use sociomile.Model.{Db, Conversation, Ticket, conversation_status_assigned}
use sociomile.Model.Schema
use sociomile.Model.Schema.{key}
use sociomile.Repository.Filters.{is_none, ticket_of}
use sociomile.Service.Conversation.Reply.{IsReplied}
use sociomile.Service.Conversation.Assign.{IsAssigned}
use sociomile.Service.Conversation.Close.{Closed}
use sociomile.Service.Ticket.Escalate.Effect.{IsEscalated}
use sociomile.Service.Ticket.{EscalateTicketInput}
use sociomile.Service.Ticket.Status.{IsStatusSet}
use sociomile.Service.Webhook.{WebhookInput}
use sociomile.Service.Webhook.Effect.{IsRouted, touched, opened, IsReceived}
use sociomile.Invariant.{IsCoherent, is_open, is_assigned, is_closed, IsSound, IsWellFormed}
use sociomile.Invariant.Tables.{
  rewritten-IsSound, opened-IsSound, ticket-IsSound, ticket_rewritten-IsSound,
}

-- The tables other than the two do not matter.
same_tickets :
    (d d' : Db) → IsSound d'.conversations d.tickets → d'.tickets ≡ d.tickets → IsWellFormed d'
same_tickets d d' sound same = subst⁻¹ (IsSound d'.conversations) same sound

-- A status and an agent that agree with those of a coherent conversation.
IsCoherent-as :
    (c x : Conversation)
    → IsCoherent c
    → x.status ≡ c.status
    → x.assigned_agent_id ≡ c.assigned_agent_id
    → IsCoherent x
IsCoherent-as c x (is_open s a) status agent = is_open (status ∙ s) (agent ∙ a)
IsCoherent-as c x (is_assigned s a) status agent = is_assigned (status ∙ s) (λ n. a (sym agent ∙ n))
IsCoherent-as c x (is_closed s) status agent = is_closed (status ∙ s)

some_not_none : {A : Type 0} (o : Option A) (a : A) → o ≡ some a → o ≢ none
some_not_none o a h n = cc

taken_status :
    (o : Option String) (agent_id status : String)
    → o ≡ some agent_id
    → (if is_none o then conversation_status_assigned else status) ≡ status
taken_status none agent_id status h = absurd (some_not_none none agent_id h refl)
taken_status (some a) agent_id status h = refl

free_status :
    (o : Option String) (status : String)
    → o ≡ none
    → (if is_none o then conversation_status_assigned else status) ≡ conversation_status_assigned
free_status none status h = refl
free_status (some a) status h = absurd (some_not_none (some a) a refl h)

module _ (d d' : Db) (tenant_id id agent_id text : String) (sound : IsWellFormed d) where
  replied-IsCoherent :
      (r : IsReplied tenant_id id agent_id text d d') → IsCoherent r.row → IsCoherent r.stored
  replied-IsCoherent r coherent = elim r.row_free [
    | inl free ↦
        is_assigned (r.stored_status ∙ free_status _ _ free)
          (some_not_none _ agent_id r.stored_assignee)
    | inr own ↦
        IsCoherent-as r.row r.stored coherent (r.stored_status ∙ taken_status _ agent_id _ own)
          (r.stored_assignee ∙ sym own)
  ]

  pub replied_sound : IsReplied tenant_id id agent_id text d d' → IsWellFormed d'
  replied_sound r =
      same_tickets d d'
        (rewritten-IsSound d tenant_id id r.row r.stored d'.conversations r.rewritten sound
          (replied-IsCoherent r (sound.coherent r.row r.rewritten.listed)))
        (ap (λ x. x.tickets) r.frame)

module _ (d d' : Db) (tenant_id id : String) (sound : IsWellFormed d) where
  pub assigned_sound : (agent_id : String) → IsAssigned tenant_id id agent_id d d' → IsWellFormed d'
  assigned_sound agent_id r =
      same_tickets d d'
        (rewritten-IsSound d tenant_id id r.row r.stored d'.conversations r.rewritten sound
          (is_assigned r.stored_status r.owned))
        (ap (λ x. x.tickets) r.frame)

  pub Closed-sound :
      (actor_id actor_role : String)
      → Closed tenant_id id actor_id actor_role d d'
      → IsWellFormed d'
  Closed-sound actor_id actor_role r = elim r.change [
    | inl (_, same) ↦ subst⁻¹ IsWellFormed same sound
    | inr c ↦
        same_tickets d d'
          (rewritten-IsSound d tenant_id id r.row c.stored d'.conversations c.rewritten sound
            (is_closed c.stored_status))
          (ap (λ x. x.tickets) c.frame)
  ]

  pub status_sound : (status : String) → IsStatusSet tenant_id id status d d' → IsWellFormed d'
  status_sound status r =
      subst⁻¹ (λ cs. IsSound cs d'.tickets) (ap (λ x. x.conversations) r.frame)
        (subst⁻¹ (IsSound d.conversations) r.replaced (
          ticket_rewritten-IsSound d.conversations d.tickets sound r.row r.stored r.listed
            r.stored_id r.stored_tenant r.stored_conversation))

-- The row that is escalated, which is there before and after it is taken.
module _ (d d' : Db) (tenant_id id agent_id : String) (input : EscalateTicketInput)
    (sound : IsWellFormed d) (r : IsEscalated tenant_id id agent_id input d d') where
  row_is : (r.row.tenant_id ≡ tenant_id) × (r.row.id ≡ id)
  row_is = (
    ground (arith, r.asked_for, eq_iff r.row.tenant_id tenant_id, eq_iff r.row.id id),
    ground (arith, r.asked_for, eq_iff r.row.tenant_id tenant_id, eq_iff r.row.id id),
  )

  escalated_rows :
      IsSound d'.conversations d.tickets
      × ((c : Conversation) × Member c d'.conversations × (c.id ≡ id) × (c.tenant_id ≡ tenant_id))
  escalated_rows = elim r.taken.change [
    | inl (own, same) ↦
        subst⁻¹
          (λ rows.
            IsSound rows d.tickets
            × ((c : Conversation) × Member c rows × (c.id ≡ id) × (c.tenant_id ≡ tenant_id)))
          same (sound, (r.row, r.listed, row_is.1, row_is.0))
    | inr (free, (stored, rewritten, owner, status)) ↦ (
      rewritten-IsSound d tenant_id id r.row stored d'.conversations rewritten sound
          (is_assigned status (some_not_none _ agent_id owner)),
      (
        stored,
        subst⁻¹ (Member stored) rewritten.replaced
            (upsert-Member (key Schema.conversations) stored d.conversations),
        rewritten.stored_id,
        rewritten.stored_tenant,
      ),
    )
  ]

  -- A ticket of a conversation with that identifier is one of that tenant, and there is none.
  first_ticket : (t : Ticket) → Member t d.tickets → t.conversation_id ≢ r.ticket.conversation_id
  first_ticket t m e =
      let (c, listed, owns, tenant) = sound.owned t m in
      let same : t.conversation_id ≡ id = e ∙ r.ticket_conversation in
      let c_row : c ≡ r.row =
        Unique-Member (key Schema.conversations) c r.row d.conversations sound.conversation_ids
          listed r.listed (owns ∙ (same ∙ sym row_is.1)) in
      let of_tenant : t.tenant_id ≡ tenant_id =
        sym tenant ∙ (ap (λ (x : Conversation). x.tenant_id) c_row ∙ row_is.0) in
      let fits : ticket_of tenant_id id t ≡ true =
        rw (((eq_iff _ _).1 of_tenant), ((eq_iff _ _).1 same)) refl in
      false≢true (sym (r.no_ticket t m) ∙ fits)

  pub escalated_sound : IsWellFormed d'
  escalated_sound =
      let (rows, (c, listed, same, tenant)) = escalated_rows in
      subst⁻¹ (IsSound d'.conversations) r.added (
        ticket-IsSound d'.conversations d.tickets rows r.ticket
          (c, listed, same ∙ sym r.ticket_conversation, tenant ∙ sym r.ticket_tenant) r.fresh
          first_ticket)

module _ (d d' : Db) (input : WebhookInput) (id : String) (sound : IsWellFormed d) where
  pub received_sound : IsReceived input id d d' → IsWellFormed d'
  received_sound r = same_tickets d d' (rows r.routed) (ap (λ x. x.tickets) r.frame)
    where
      rows :
          IsRouted input.tenant_id r.customer.id r.channel.id id r.message d d'
          → IsSound d'.conversations d.tickets
      rows (touched t announced) =
          rewritten-IsSound d input.tenant_id id t.row t.stored d'.conversations t.rewritten sound (
            IsCoherent-as t.row t.stored (sound.coherent t.row t.rewritten.listed) t.same_status
              t.same_assignee)
      rows (opened c o logs events created announced) =
          subst⁻¹ (λ cs. IsSound cs d.tickets) o.added
            (opened-IsSound d.conversations d.tickets sound (Schema.conversation_columns c)
              (is_open o.status o.assignee) (λ x m e. o.fresh x m (e ∙ o.same_id)))
