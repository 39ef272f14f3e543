-- ===== src/Http/Routes.antt =====
-- backend/internal/http/router/router.go: `New`, the routes with their handlers, and the middleware in
-- front of them. Which route a method and a path are, Fiber decides. The error that the middleware of the
-- group passes up is answered by `ErrorHandler`, with what `response.Error` answers for it.
pub mod Guarded
pub mod Posted
use sociomile.Prelude.{
  ℕ, ℤ, String, Bool, true, false, not, Option, none, some, List, [], ◌∷◌, ◌++◌, ◌==◌, decimal,
  concat, if◌then◌else◌,
}
use sociomile.Model.{User, Conversation, Ticket, role_admin, role_agent}
use sociomile.Apperror.{AppError, Error, other}
use sociomile.Exec.{Result, ok, err, State, Exec, fail}
use sociomile.Gorm.{Gorm}
use sociomile.Redis.{Codec}
use sociomile.Auth.{Claims, Jwt, Compare}
use sociomile.Cache.{Client}
use sociomile.Health.{Report, online, unknown, snapshot}
use sociomile.Service.Auth.{LoginResult}
use sociomile.Service.Webhook.{WebhookInput}
use sociomile.Service.Ticket.{EscalateTicketInput}
use sociomile.Http.{
  Response, success, failure, error_response, respond, protected, channel_webhook, login_handler,
  me_handler, agents_handler, conversation_detail, reply_handler, assign_handler, close_handler,
  escalate_handler, ticket_detail, status_handler,
}
use sociomile.Http.Lists.{Page, conversations_handler, tickets_handler}

-- The routes that `New` registers, with the parameter of their path.
pub data Route : Type 0 where
  -- `GET /health`
  get_health : Route
  -- `POST /api/v1/auth/login`
  post_login : Route
  -- `POST /api/v1/channel/webhook`
  post_webhook : Route
  -- `GET /api/v1/auth/me`
  get_me : Route
  -- `GET /api/v1/users/agents`
  get_agents : Route
  -- `GET /api/v1/conversations/`
  get_conversations : Route
  -- `GET /api/v1/conversations/:id`
  get_conversation : String → Route
  -- `POST /api/v1/conversations/:id/messages`
  post_message : String → Route
  -- `PATCH /api/v1/conversations/:id/assign`
  patch_assign : String → Route
  -- `PATCH /api/v1/conversations/:id/close`
  patch_close : String → Route
  -- `POST /api/v1/conversations/:id/escalate`
  post_escalate : String → Route
  -- `GET /api/v1/tickets/`
  get_tickets : Route
  -- `GET /api/v1/tickets/:id`
  get_ticket : String → Route
  -- `PATCH /api/v1/tickets/:id/status`
  patch_status : String → Route
  -- `GET /`
  get_root : Route
  -- A path or a method that no route takes, outside the group `protected` and in it: `/api/v1/`
  no_route : Route
  no_protected_route : Route

-- What the handlers read of a request. A body stands here as each handler would bind it, none where it
-- is not valid JSON.
pub record Request : Type 0 where
  pub request_id : String
  -- The text of the error with which Fiber says that no route takes the request.
  pub route_error : String
  pub is_options : Bool
  pub authorization : String
  pub ip : String
  pub query : String → String
  pub login : Option (String × String)
  pub webhook : Option WebhookInput
  pub message : Option String
  pub agent_id : Option String
  pub ticket : Option EscalateTicketInput
  pub status : Option String

-- What a route sends as its data.
pub data Body : Type 0 where
  report : Report → Body
  login_result : LoginResult → Body
  user : User → Body
  users : List User → Body
  conversation : Conversation → Body
  conversations : Page Conversation → Body
  ticket : Ticket → Body
  tickets : Page Ticket → Body
  text : String → Body

abbrev pub sent : {W A : Type 0} → (A → Body) → Response A × State W → Response Body × State W
sent f (success status a, s) = (success status (f a), s)
sent f (failure e, s) = (failure e, s)

-- What `New` is given, and the libraries that the handlers use.
pub record Server (W : Type 0) : Type 1 where
  pub gorm : Gorm W
  pub cache : Client W
  pub jwt : Jwt
  pub compare : Compare
  pub secret : String
  pub ttl : ℤ
  pub port : ℤ
  -- The health reporter, which has the cache, where there is one.
  pub reporter : Option (Codec ℕ)
  pub conversation_codec : Codec (List Conversation × ℕ)
  pub ticket_codec : Codec (List Ticket × ℕ)
  -- `uuid.NewString`
  pub new_uuid : W → String × W

-- `ErrorHandler`, for the errors that no handler has answered
unfoldable pub error_handler : Error → Response Body
error_handler e = failure (error_response e)

-- The roles of a route: none where it is open to all, `some none` where it asks for a token alone.
unfoldable pub access : Route → Option (Option (List String))
access get_health = none
access post_login = none
access post_webhook = none
access get_me = some none
access get_agents = some none
access get_conversations = some none
access (get_conversation id) = some none
access (post_message id) = some (some (role_agent ∷ []))
access (patch_assign id) = some (some (role_admin ∷ []))
access (patch_close id) = some (some (role_admin ∷ role_agent ∷ []))
access (post_escalate id) = some (some (role_agent ∷ []))
access get_tickets = some none
access (get_ticket id) = some none
access (patch_status id) = some (some (role_admin ∷ []))
access get_root = none
access no_route = none
access no_protected_route = some none

module _ {W : Type 0} (srv : Server W) where
  -- A route of the group `protected`, with its handler.
  abbrev pub behind :
      {A : Type 0}
      → Option (List String)
      → ℕ
      → (A → Body)
      → (Option Claims → Exec W A)
      → Request
      → State W
      → Response Body × State W
  behind roles status f handler r s =
      sent f (protected srv.jwt srv.secret roles status handler r.authorization s)

  -- The health report, without a reporter and with one.
  abbrev pub reported : Option (Codec ℕ) → State W → Response Body × State W
  reported none s = (
    success 200 (
        report (record {
          status = "ok";
          port = srv.port;
          api = record { status = online; checked_at = none };
          worker = record { status = unknown; checked_at = none };
        })),
    s,
  )
  reported (some codec) s = sent report (respond 200 (snapshot srv.gorm srv.cache codec srv.port) s)

  -- The handler of each route, behind its middleware.
  unfoldable pub dispatch : Route → Request → State W → Response Body × State W
  dispatch get_health r s = reported srv.reporter s
  dispatch post_login r s =
      sent login_result (login_handler srv.gorm srv.jwt srv.compare srv.secret srv.ttl r.login s)
  dispatch post_webhook r s =
      sent conversation (channel_webhook srv.gorm srv.cache r.ip r.webhook s)
  dispatch get_me r s = behind none 200 user (me_handler srv.gorm) r s
  dispatch get_agents r s = behind none 200 users (agents_handler srv.gorm) r s
  dispatch get_conversations r s =
      behind none 200 conversations
        (conversations_handler srv.gorm srv.cache srv.conversation_codec r.query) r s
  dispatch (get_conversation id) r s =
      behind none 200 conversation (conversation_detail srv.gorm id) r s
  dispatch (post_message id) r s =
      behind (some (role_agent ∷ [])) 200 conversation
        (reply_handler srv.gorm srv.cache id r.message) r s
  dispatch (patch_assign id) r s =
      behind (some (role_admin ∷ [])) 200 conversation
        (assign_handler srv.gorm srv.cache id r.agent_id) r s
  dispatch (patch_close id) r s =
      behind (some (role_admin ∷ role_agent ∷ [])) 200 conversation
        (close_handler srv.gorm srv.cache id) r s
  dispatch (post_escalate id) r s =
      behind (some (role_agent ∷ [])) 201 ticket (escalate_handler srv.gorm srv.cache id r.ticket) r
        s
  dispatch get_tickets r s =
      behind none 200 tickets (tickets_handler srv.gorm srv.cache srv.ticket_codec r.query) r s
  dispatch (get_ticket id) r s = behind none 200 ticket (ticket_detail srv.gorm id) r s
  dispatch (patch_status id) r s =
      behind (some (role_admin ∷ [])) 200 ticket (status_handler srv.gorm srv.cache id r.status) r s
  dispatch get_root r s =
      (success 200 (text (concat ("Sociomile API listening on " ∷ decimal srv.port ∷ []))), s)
  dispatch no_route r s = (error_handler (other r.route_error), s)
  dispatch no_protected_route r s = behind none 200 text (λ claims. fail (other r.route_error)) r s

  -- `RequestID`: the identifier that it stores and sends
  unfoldable pub request_id : Request → State W → String × State W
  request_id r s =
      if r.request_id == ""
      then ((srv.new_uuid s.world).0, record s { world = (srv.new_uuid s.world).1 })
      else (r.request_id, s)

  -- The headers that `CORS` sets.
  abbrev pub cors_headers : List (String × String)
  cors_headers =
      ("Access-Control-Allow-Origin", "*")
      ∷ ("Access-Control-Allow-Headers", "Authorization, Content-Type, X-Request-Id")
      ∷ ("Access-Control-Allow-Methods", "GET,POST,PATCH,OPTIONS")
      ∷ []

  -- What is sent: the headers, and the response, none for the 204 of `CORS`.
  pub record Sent : Type 0 where
    pub headers : List (String × String)
    pub response : Option (Response Body)

  abbrev pub with_headers : String → Response Body × State W → Sent × State W
  with_headers id (response, s) =
      (record { headers = ("X-Request-Id", id) ∷ cors_headers; response = some response }, s)

  -- `CORS`, and the route behind it.
  unfoldable pub cors : String → Route → Request → State W → Sent × State W
  cors id route r s =
      if r.is_options
      then (record { headers = ("X-Request-Id", id) ∷ cors_headers; response = none }, s)
      else with_headers id (dispatch route r s)

  -- The application that `New` makes, for a request of a route.
  unfoldable pub handle : Route → Request → State W → Sent × State W
  handle route r s = cors (request_id r s).0 route r (request_id r s).1
