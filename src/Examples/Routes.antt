-- ===== src/Examples/Routes.antt =====
-- The theorems about the routes and the pages, applied to a server without Redis.
use sociomile.Prelude.{
  ℕ, ◌+◌, pos, String, ◌≡◌, refl, false, none, some, [], ◌∷◌, ◌==◌, trim_space, if◌then◌else◌,
}
use sociomile.Model.{Conversation, role_agent}
use sociomile.Exec.{Result, State, pure, fail, ◌>>=◌, catch, outside}
use sociomile.Gorm.Session.{find, count, preload}
use sociomile.Strconv.{atoi, read_digits}
use sociomile.Repository.Filters.{apply_conversation_filter}
use sociomile.Repository.Store.{each, preload_conversation, preload_ticket}
use sociomile.Repository.Store
use sociomile.Cache.{version, get_json, set_json}
use sociomile.Service.Paging.{normalize_offset, normalize_limit}
use sociomile.Service.Listing.{
  conversation_filter, conversations_key, cached_or, cached, list_conversations,
}
use sociomile.Http.{current_claims}
use sociomile.Http.Lists.{Page, query, parse_pagination, paginated, conversations_handler}
use sociomile.Http.Lists.Bounds.{IsBounded, conversations_handler_ok}
use sociomile.Http.Routes.{Request, Server, post_message, access, dispatch}
use sociomile.Http.Routes.Guarded.{IsGuarded, dispatch_guard}
use sociomile.Examples.Engine.{engine}
use sociomile.Examples.Engine.Laws.{engine_laws}
use sociomile.Examples.Data.{taken, value_or, returned}
use sociomile.Examples.Access.{jwt, agent_claims}
use sociomile.Examples.Lists.{codec}
use sociomile.Examples.Outbox

abbrev pub server : Server ℕ
server = record {
  gorm = engine;
  cache = none;
  jwt = jwt;
  compare = λ hash password. hash == password;
  secret = "secret";
  ttl = pos 60;
  port = pos 8080;
  reporter = some Outbox.codec;
  conversation_codec = codec ([], 0);
  ticket_codec = codec ([], 0);
  new_uuid = λ w. ("id", w + 1);
}

abbrev params : String → String
params key = if key == "limit" then "500" else ""

abbrev pub request : Request
request = record {
  request_id = "";
  route_error = "";
  is_options = false;
  authorization = "Bearer token";
  ip = "127.0.0.1";
  query = params;
  login = none;
  webhook = none;
  message = some "hello";
  agent_id = none;
  ticket = none;
  status = none;
}

posts : access (post_message "c") ≡ some (some (role_agent ∷ []))
unfolding access
posts = refl

dispatch_guard_example :
    IsGuarded jwt "secret" "Bearer token"
      (some (role_agent ∷ []))
      taken
      (dispatch server (post_message "c") request taken)
dispatch_guard_example =
    dispatch_guard server request taken (post_message "c") (some (role_agent ∷ [])) posts

abbrev page_run : Result (Page Conversation) × State ℕ
page_run = conversations_handler engine none (codec ([], 0)) params (some agent_claims) taken

abbrev no_page : Page Conversation
no_page = record { items = []; total = 0; offset = pos 0; limit = pos 0; filters = [] }

conversations_handler_ok_example :
    (page_run.1.db ≡ taken.db)
    × IsBounded {W = ℕ} none
        (codec ([], 0))
        taken.world
        agent_claims
        params
        (value_or no_page page_run.0)
unfolding conversations_handler current_claims parse_pagination paginated query atoi read_digits
    list_conversations cached cached_or version get_json set_json normalize_offset normalize_limit
    Store.list_conversations each preload_conversation preload_ticket conversation_filter
    conversations_key apply_conversation_filter trim_space find count preload pure fail ◌>>=◌ catch
    outside
conversations_handler_ok_example =
    conversations_handler_ok engine engine_laws none (codec ([], 0)) params agent_claims taken
      (value_or no_page page_run.0) page_run.1 (returned no_page page_run tt)
