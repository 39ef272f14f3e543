-- ===== src/Http/Lists.antt =====
-- backend/internal/http: the handlers of the two lists, with the pagination of the query and that of the
-- response.
pub mod Bounds
use sociomile.Prelude.{ℕ, ℤ, pos, String, Option, none, some, List, [], ◌∷◌, ◌==◌, if◌then◌else◌}
use sociomile.Model.{Conversation, Ticket}
use sociomile.Exec.{Exec, pure, ◌>>=◌}
use sociomile.Gorm.{Gorm}
use sociomile.Redis.{Codec}
use sociomile.Strconv.{atoi}
use sociomile.Auth.{Claims}
use sociomile.Cache.{Client}
use sociomile.Service.Listing.{list_conversations, list_tickets}
use sociomile.Http.{current_claims}

-- `c.Query(key, fallback)`, of what the query has for the key, "" where it has nothing
unfoldable pub query : String → String → String
query value fallback = if value == "" then fallback else value

abbrev pub number_or : ℤ → Option ℤ → ℤ
number_or fallback none = fallback
number_or fallback (some n) = n

-- `parsePagination`: the offset and the limit
unfoldable pub parse_pagination : (String → String) → ℤ × ℤ
parse_pagination params = (
  number_or (pos 0) (atoi (query (params "offset") "0")),
  number_or (pos 20) (atoi (query (params "limit") "20")),
)

-- The body of `Paginated`
pub record Page (A : Type 0) : Type 0 where
  pub items : List A
  pub total : ℕ
  pub offset : ℤ
  pub limit : ℤ
  pub filters : List (String × String)

-- `Paginated`
unfoldable pub paginated : {A : Type 0} → List A → ℕ → ℤ → ℤ → List (String × String) → Page A
paginated items total offset limit filters = record {
  items = items;
  total = total;
  offset = offset;
  limit = limit;
  filters = filters;
}

module _ {W : Type 0} (g : Gorm W) (cache : Client W) where
  -- `List` of the conversations
  unfoldable pub conversations_handler :
      Codec (List Conversation × ℕ) → (String → String) → Option Claims → Exec W (Page Conversation)
  conversations_handler codec params stored = do
    claims ← current_claims stored
    found ← list_conversations g cache codec claims.tenant_id (record {
      status = query (params "status") "";
      assigned_agent_id = query (params "assigned_agent_id") "";
      offset = (parse_pagination params).0;
      limit = (parse_pagination params).1;
    })
    pure (
        paginated found.0 found.1 (parse_pagination params).0 (parse_pagination params).1 (
          ("status", query (params "status") "")
          ∷ ("assigned_agent_id", query (params "assigned_agent_id") "")
          ∷ []))

  -- `List` of the tickets
  unfoldable pub tickets_handler :
      Codec (List Ticket × ℕ) → (String → String) → Option Claims → Exec W (Page Ticket)
  tickets_handler codec params stored = do
    claims ← current_claims stored
    found ← list_tickets g cache codec claims.tenant_id (record {
      status = query (params "status") "";
      priority = query (params "priority") "";
      assigned_agent_id = query (params "assigned_agent_id") "";
      offset = (parse_pagination params).0;
      limit = (parse_pagination params).1;
    })
    pure (
        paginated found.0 found.1 (parse_pagination params).0 (parse_pagination params).1 (
          ("status", query (params "status") "")
          ∷ ("priority", query (params "priority") "")
          ∷ ("assigned_agent_id", query (params "assigned_agent_id") "")
          ∷ []))
