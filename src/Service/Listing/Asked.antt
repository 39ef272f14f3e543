-- ===== src/Service/Listing/Asked.antt =====
-- What a list is asked for, apart from the code: the numbers of the page, the rows that are wanted, and
-- the key under which the answer is kept.
use Prim.Native.String
use sociomile.Prelude.{
  zero, suc, ℤ, pos, negsuc, String, ◌≡◌, refl, Bool, false, ◌&&◌, ◌||◌, Option, none, some, [],
  ◌∷◌, ◌==◌, ltb, decimal, trim_space, if◌then◌else◌, ◌∙◌,
}
use sociomile.Model.{Conversation, Ticket}
use sociomile.Gorm.{Query}
use sociomile.Repository.Filters.{is_value, apply_conversation_filter, apply_ticket_filter}
use sociomile.Repository.Store.Pages.{conversations_query, tickets_query}
use sociomile.Cache.Keys.{behind, key_lem}
use sociomile.Service.Paging.{normalize_offset, normalize_limit}
use sociomile.Service.Listing.{
  ListConversationsInput, ListTicketsInput, conversation_filter, ticket_filter, conversations_key,
  tickets_key,
}

-- The offset of a page, 0 where a negative one is asked for.
abbrev pub first_row : ℤ → ℤ
first_row (pos n) = pos n
first_row (negsuc n) = pos 0

-- The rows of a page: 20 where none are asked for, and at most 100.
abbrev pub page_size : ℤ → ℤ
page_size (pos zero) = pos 20
page_size (pos (suc n)) = if ltb 100 (suc n) then pos 100 else pos (suc n)
page_size (negsuc n) = pos 20

pub first_row_lem : (o : ℤ) → normalize_offset o ≡ first_row o
unfolding normalize_offset
first_row_lem (pos n) = refl
first_row_lem (negsuc n) = refl

pub page_size_lem : (l : ℤ) → normalize_limit l ≡ page_size l
unfolding normalize_limit
page_size_lem (pos zero) = refl
page_size_lem (pos (suc n)) = refl
page_size_lem (negsuc n) = refl

abbrev is_for : Option String → String → Bool
is_for none id = false
is_for (some k) id = k == id

-- The conversations of the tenant with the status and the agent that are asked for, where one is.
abbrev pub wanted_conversations : String → ListConversationsInput → Query Conversation
wanted_conversations tenant_id input = record {
  matches = λ r.
      r.tenant_id == tenant_id
      && ((trim_space input.status == "" || r.status == trim_space input.status)
          && (trim_space input.assigned_agent_id == ""
              || is_for r.assigned_agent_id (trim_space input.assigned_agent_id)));
  before = λ a b. ltb b.updated_at a.updated_at;
}

abbrev pub wanted_tickets : String → ListTicketsInput → Query Ticket
wanted_tickets tenant_id input = record {
  matches = λ r.
      r.tenant_id == tenant_id
      && ((trim_space input.status == "" || r.status == trim_space input.status)
          && ((trim_space input.priority == "" || r.priority == trim_space input.priority)
              && (trim_space input.assigned_agent_id == ""
                  || is_for r.assigned_agent_id (trim_space input.assigned_agent_id))));
  before = λ a b. ltb b.updated_at a.updated_at;
}

-- The keys of a list: the tenant, the version, the page and all that is asked for.
abbrev pub conversations_kept : String → ListConversationsInput → ℤ → String
conversations_kept tenant_id input v = String.◌++◌ "sociomile" (
    behind (
      "tenant"
      ∷ tenant_id
      ∷ "conversations"
      ∷ String.◌++◌ "v" (decimal v)
      ∷ String.◌++◌ "offset=" (decimal (first_row input.offset))
      ∷ String.◌++◌ "limit=" (decimal (page_size input.limit))
      ∷ String.◌++◌ "status=" (trim_space input.status)
      ∷ String.◌++◌ "agent=" (trim_space input.assigned_agent_id)
      ∷ []))

abbrev pub tickets_kept : String → ListTicketsInput → ℤ → String
tickets_kept tenant_id input v = String.◌++◌ "sociomile" (
    behind (
      "tenant"
      ∷ tenant_id
      ∷ "tickets"
      ∷ String.◌++◌ "v" (decimal v)
      ∷ String.◌++◌ "offset=" (decimal (first_row input.offset))
      ∷ String.◌++◌ "limit=" (decimal (page_size input.limit))
      ∷ String.◌++◌ "status=" (trim_space input.status)
      ∷ String.◌++◌ "priority=" (trim_space input.priority)
      ∷ String.◌++◌ "agent=" (trim_space input.assigned_agent_id)
      ∷ []))

pub conversations_kept_lem :
    (tenant_id : String) (input : ListConversationsInput) (v : ℤ)
    → conversations_key tenant_id v (conversation_filter input)
      ≡ conversations_kept tenant_id input v
unfolding conversations_key conversation_filter
conversations_kept_lem tenant_id input v = key_lem _ _ ∙ (λ i. String.◌++◌ "sociomile" (
    behind (
      "tenant"
      ∷ tenant_id
      ∷ "conversations"
      ∷ String.◌++◌ "v" (decimal v)
      ∷ String.◌++◌ "offset=" (decimal (first_row_lem input.offset i))
      ∷ String.◌++◌ "limit=" (decimal (page_size_lem input.limit i))
      ∷ String.◌++◌ "status=" (trim_space input.status)
      ∷ String.◌++◌ "agent=" (trim_space input.assigned_agent_id)
      ∷ [])))

pub tickets_kept_lem :
    (tenant_id : String) (input : ListTicketsInput) (v : ℤ)
    → tickets_key tenant_id v (ticket_filter input) ≡ tickets_kept tenant_id input v
unfolding tickets_key ticket_filter
tickets_kept_lem tenant_id input v = key_lem _ _ ∙ (λ i. String.◌++◌ "sociomile" (
    behind (
      "tenant"
      ∷ tenant_id
      ∷ "tickets"
      ∷ String.◌++◌ "v" (decimal v)
      ∷ String.◌++◌ "offset=" (decimal (first_row_lem input.offset i))
      ∷ String.◌++◌ "limit=" (decimal (page_size_lem input.limit i))
      ∷ String.◌++◌ "status=" (trim_space input.status)
      ∷ String.◌++◌ "priority=" (trim_space input.priority)
      ∷ String.◌++◌ "agent=" (trim_space input.assigned_agent_id)
      ∷ [])))

value_for : (o : Option String) (k : String) → is_value o k ≡ is_for o k
value_for none k = refl
value_for (some v) k = refl

pub wanted_conversations_lem :
    (tenant_id : String) (input : ListConversationsInput)
    → conversations_query tenant_id (conversation_filter input)
      ≡ wanted_conversations tenant_id input
unfolding conversation_filter apply_conversation_filter
wanted_conversations_lem tenant_id input = λ i. record {
  matches = λ r.
      r.tenant_id == tenant_id
      && ((trim_space input.status == "" || r.status == trim_space input.status)
          && (trim_space input.assigned_agent_id == ""
              || value_for r.assigned_agent_id (trim_space input.assigned_agent_id) i));
  before = λ a b. ltb b.updated_at a.updated_at;
}

pub wanted_tickets_lem :
    (tenant_id : String) (input : ListTicketsInput)
    → tickets_query tenant_id (ticket_filter input) ≡ wanted_tickets tenant_id input
unfolding ticket_filter apply_ticket_filter
wanted_tickets_lem tenant_id input = λ i. record {
  matches = λ r.
      r.tenant_id == tenant_id
      && ((trim_space input.status == "" || r.status == trim_space input.status)
          && ((trim_space input.priority == "" || r.priority == trim_space input.priority)
              && (trim_space input.assigned_agent_id == ""
                  || value_for r.assigned_agent_id (trim_space input.assigned_agent_id) i)));
  before = λ a b. ltb b.updated_at a.updated_at;
}
