-- ===== src/Examples/Lists.antt =====
-- The theorems about lists, applied to the engine in memory and to no cache.
use sociomile.Prelude.{ℕ, pos, negsuc, ◌≡◌, none, List, [], trim_space}
use sociomile.Model.{Conversation, Ticket}
use sociomile.Exec.{Result, ok, State, pure, fail, ◌>>=◌, catch, outside}
use sociomile.Gorm.Session.{find, count, preload}
use sociomile.Redis.{Codec}
use sociomile.Repository.Filters.{apply_conversation_filter, apply_ticket_filter}
use sociomile.Repository.Store.{each, preload_conversation, preload_ticket}
use sociomile.Repository.Store
use sociomile.Repository.Store.Rules.{IsPreloaded, IsLoadedTicket}
use sociomile.Repository.Store.Pages.{IsListed}
use sociomile.Cache.{version, get_json, set_json}
use sociomile.Cache.Rules.{IsVersion}
use sociomile.Service.Paging.{normalize_offset, normalize_limit}
use sociomile.Service.Listing.{
  ListConversationsInput, ListTicketsInput, conversation_filter, ticket_filter, cached_or, cached,
  list_conversations, list_tickets,
}
use sociomile.Service.Listing.Asked.{
  conversations_kept, tickets_kept, wanted_conversations, wanted_tickets,
}
use sociomile.Service.Listing.Page.{IsAnswer, list_conversations_ok, list_tickets_ok}
use sociomile.Examples.Engine.{engine}
use sociomile.Examples.Engine.Laws.{engine_laws}
use sociomile.Examples.Data.{taken, value_or, returned}

abbrev pub codec : {A : Type 0} → A → Codec A
codec a = record { marshal = λ x. ok "list"; unmarshal = λ text. ok a }

abbrev all_conversations : ListConversationsInput
all_conversations = record {
  status = " assigned";
  assigned_agent_id = "";
  offset = negsuc 4;
  limit = pos 500;
}

abbrev all_tickets : ListTicketsInput
all_tickets = record {
  status = "";
  priority = "low";
  assigned_agent_id = "";
  offset = pos 0;
  limit = pos 0;
}

abbrev conversations_run : Result (List Conversation × ℕ) × State ℕ
conversations_run = list_conversations engine none (codec ([], 0)) "t" all_conversations taken

list_conversations_ok_example :
    (conversations_run.1.db ≡ taken.db)
    × IsAnswer {W = ℕ} none
        (codec ([], 0))
        (IsVersion none "t" "conversations" taken.world)
        (conversations_kept "t" all_conversations)
        (λ n m.
          IsListed
            (IsPreloaded taken.db)
            (wanted_conversations "t" all_conversations)
            n
            m
            taken.db.conversations)
        (negsuc 4)
        (pos 500)
        (value_or ([], 0) conversations_run.0)
unfolding list_conversations cached cached_or conversation_filter Store.list_conversations each
    preload_conversation version get_json set_json find count preload normalize_offset
    normalize_limit apply_conversation_filter trim_space pure fail ◌>>=◌ catch outside
list_conversations_ok_example =
    list_conversations_ok engine engine_laws none "t" taken (codec ([], 0)) all_conversations
      (value_or ([], 0) conversations_run.0) conversations_run.1
      (returned ([], 0) conversations_run tt)

abbrev tickets_run : Result (List Ticket × ℕ) × State ℕ
tickets_run = list_tickets engine none (codec ([], 0)) "t" all_tickets taken

list_tickets_ok_example :
    (tickets_run.1.db ≡ taken.db)
    × IsAnswer {W = ℕ} none
        (codec ([], 0))
        (IsVersion none "t" "tickets" taken.world)
        (tickets_kept "t" all_tickets)
        (λ n m.
          IsListed (IsLoadedTicket taken.db) (wanted_tickets "t" all_tickets) n m taken.db.tickets)
        (pos 0)
        (pos 0)
        (value_or ([], 0) tickets_run.0)
unfolding list_tickets cached cached_or ticket_filter Store.list_tickets each preload_ticket version
    get_json set_json find count preload normalize_offset normalize_limit apply_ticket_filter
    trim_space pure fail ◌>>=◌ catch outside
list_tickets_ok_example =
    list_tickets_ok engine engine_laws none "t" taken (codec ([], 0)) all_tickets
      (value_or ([], 0) tickets_run.0) tickets_run.1 (returned ([], 0) tickets_run tt)
