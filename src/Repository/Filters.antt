-- ===== src/Repository/Filters.antt =====
-- The filters and the `Where` tests of backend/internal/repository/store.go.
use Prim.Native.String
use text.Mathlib.Text.{is_lt}
use sociomile.Prelude.{
  ℤ, pos, String, Bool, true, false, ◌&&◌, ◌||◌, Option, none, some, ◌==◌, not_positive,
  if◌then◌else◌,
}
use sociomile.Apperror.{Error, record_not_found}
use sociomile.Model.{
  User, Channel, Customer, Conversation, Ticket, conversation_status_open,
  conversation_status_assigned,
}

-- `ConversationFilter`
pub record ConversationFilter : Type 0 where
  pub status : String
  pub assigned_agent_id : String
  pub offset : ℤ
  pub limit : ℤ

-- `TicketFilter`
pub record TicketFilter : Type 0 where
  pub status : String
  pub priority : String
  pub assigned_agent_id : String
  pub offset : ℤ
  pub limit : ℤ

-- A nullable column that is compared with a text: NULL equals nothing.
abbrev pub is_value : Option String → String → Bool
is_value none k = false
is_value (some v) k = v == k

abbrev pub is_none : {A : Type 0} → Option A → Bool
is_none none = true
is_none (some a) = false

-- `errors.Is(err, gorm.ErrRecordNotFound)`
abbrev pub is_not_found : Error → Bool
is_not_found record_not_found = true
is_not_found _ = false

-- The tests of the queries, in the words of their `Where`.
abbrev pub user_in : String → String → User → Bool
user_in id tenant_id r = r.id == id && r.tenant_id == tenant_id

abbrev pub active_role : String → String → User → Bool
active_role tenant_id role r = r.tenant_id == tenant_id && (r.role == role && r.active)

abbrev pub channel_in : String → String → Channel → Bool
channel_in tenant_id key r = r.tenant_id == tenant_id && r.key == key

abbrev pub customer_in : String → String → Customer → Bool
customer_in tenant_id external_id r = r.tenant_id == tenant_id && r.external_id == external_id

abbrev pub conversation_in : String → String → Conversation → Bool
conversation_in tenant_id id r = r.tenant_id == tenant_id && r.id == id

abbrev pub active_in : String → String → String → Conversation → Bool
active_in tenant_id customer_id channel_id r =
    r.tenant_id == tenant_id
    && (r.customer_id == customer_id
        && (r.channel_id == channel_id
            && (r.status == conversation_status_open || r.status == conversation_status_assigned)))

abbrev pub ticket_of : String → String → Ticket → Bool
ticket_of tenant_id conversation_id r =
    r.tenant_id == tenant_id && r.conversation_id == conversation_id

abbrev pub ticket_in : String → String → Ticket → Bool
ticket_in tenant_id id r = r.tenant_id == tenant_id && r.id == id

-- `applyConversationFilter`: an empty text is no condition.
unfoldable pub apply_conversation_filter :
    (Conversation → Bool) → ConversationFilter → Conversation → Bool
apply_conversation_filter query filter r =
    query r
    && ((filter.status == "" || r.status == filter.status)
        && (filter.assigned_agent_id == ""
            || is_value r.assigned_agent_id filter.assigned_agent_id))

-- `applyTicketFilter`
unfoldable pub apply_ticket_filter : (Ticket → Bool) → TicketFilter → Ticket → Bool
apply_ticket_filter query filter r =
    query r
    && ((filter.status == "" || r.status == filter.status)
        && ((filter.priority == "" || r.priority == filter.priority)
            && (filter.assigned_agent_id == ""
                || is_value r.assigned_agent_id filter.assigned_agent_id)))

abbrev pub default_limit : ℤ → ℤ
default_limit limit = if not_positive limit then pos 20 else limit

-- `ORDER BY name ASC`, by code points
abbrev pub is_less : String → String → Bool
is_less a b = is_lt (String.compare a b)
