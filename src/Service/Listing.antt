-- ===== src/Service/Listing.antt =====
-- backend/internal/service/conversation_service.go and ticket_service.go: `ListConversations` and
-- `ListTickets`, with the cache in front of the store. The codecs are `encoding/json` at the cached
-- lists.
pub mod Page
pub mod Asked
use Prim.Native.String
use sociomile.Prelude.{
  decimal, ℕ, zero, suc, ◌+◌, ◌/◌, ◌%◌, ℤ, pos, negsuc, String, Option, none, some, List, [], ◌∷◌,
  ltb, trim_space, if◌then◌else◌,
}
use sociomile.Model.{Conversation, Ticket}
use sociomile.Exec.{Exec, pure, ◌>>=◌, ◌>>◌, catch}
use sociomile.Gorm.{Gorm}
use sociomile.Redis.{Codec}
use sociomile.Repository.Filters.{ConversationFilter, TicketFilter}
use sociomile.Repository.Store
use sociomile.Cache.{Client, key, version, get_json, set_json, ignore_error}
use sociomile.Service.Paging.{normalize_offset, normalize_limit}

-- `ListConversationsInput`
pub record ListConversationsInput : Type 0 where
  pub status : String
  pub assigned_agent_id : String
  pub offset : ℤ
  pub limit : ℤ

-- `ListTicketsInput`
pub record ListTicketsInput : Type 0 where
  pub status : String
  pub priority : String
  pub assigned_agent_id : String
  pub offset : ℤ
  pub limit : ℤ

-- Five minutes, in nanoseconds.
abbrev pub five_minutes : ℕ
five_minutes = 300_000_000_000

-- The filter that a list is asked for with.
unfoldable pub conversation_filter : ListConversationsInput → ConversationFilter
conversation_filter input = record {
  status = trim_space input.status;
  assigned_agent_id = trim_space input.assigned_agent_id;
  offset = normalize_offset input.offset;
  limit = normalize_limit input.limit;
}

unfoldable pub ticket_filter : ListTicketsInput → TicketFilter
ticket_filter input = record {
  status = trim_space input.status;
  priority = trim_space input.priority;
  assigned_agent_id = trim_space input.assigned_agent_id;
  offset = normalize_offset input.offset;
  limit = normalize_limit input.limit;
}

abbrev named : String → String → String
named name text = String.◌++◌ name text

-- The cache keys of a list.
unfoldable pub conversations_key : String → ℤ → ConversationFilter → String
conversations_key tenant_id v filter = key (
    "tenant"
    ∷ tenant_id
    ∷ "conversations"
    ∷ named "v" (decimal v)
    ∷ named "offset=" (decimal filter.offset)
    ∷ named "limit=" (decimal filter.limit)
    ∷ named "status=" filter.status
    ∷ named "agent=" filter.assigned_agent_id
    ∷ [])

unfoldable pub tickets_key : String → ℤ → TicketFilter → String
tickets_key tenant_id v filter = key (
    "tenant"
    ∷ tenant_id
    ∷ "tickets"
    ∷ named "v" (decimal v)
    ∷ named "offset=" (decimal filter.offset)
    ∷ named "limit=" (decimal filter.limit)
    ∷ named "status=" filter.status
    ∷ named "priority=" filter.priority
    ∷ named "agent=" filter.assigned_agent_id
    ∷ [])

module _ {W A : Type 0} (cache : Client W) (codec : Codec A) where
  -- The list where the cache has it, and else the list that is loaded and then stored.
  unfoldable pub cached_or : String → Exec W A → Option A → Exec W A
  cached_or cache_key load (some list) = pure list
  cached_or cache_key load none = do
    list ← load
    ignore_error (set_json cache codec cache_key list five_minutes)
    pure list

  unfoldable pub cached : String → Exec W A → Exec W A
  cached cache_key load = do
    hit ← catch (get_json cache codec cache_key) (λ e. pure none)
    cached_or cache_key load hit

module _ {W : Type 0} (g : Gorm W) (cache : Client W) where
  -- `ListConversations`
  unfoldable pub list_conversations :
      Codec (List Conversation × ℕ)
      → String
      → ListConversationsInput
      → Exec W (List Conversation × ℕ)
  list_conversations codec tenant_id input = do
    v ← version cache tenant_id "conversations"
    cached cache codec (conversations_key tenant_id v (conversation_filter input))
        (Store.list_conversations g tenant_id (conversation_filter input))

  -- `ListTickets`
  unfoldable pub list_tickets :
      Codec (List Ticket × ℕ) → String → ListTicketsInput → Exec W (List Ticket × ℕ)
  list_tickets codec tenant_id input = do
    v ← version cache tenant_id "tickets"
    cached cache codec (tickets_key tenant_id v (ticket_filter input))
        (Store.list_tickets g tenant_id (ticket_filter input))
