-- ===== src/Http.antt =====
-- backend/internal/http: the middleware, the error responses and the handlers. github.com/gofiber/fiber
-- is not part of the repository: a handler is given what it reads of the request (the header, the
-- path parameter, the body where it is valid JSON), and gives the response that it sends.
pub mod Access
pub mod Lists
pub mod Routes
use sociomile.Prelude.{
  ℕ, ℤ, String, Bool, true, false, not, ◌||◌, Option, none, some, List, [], ◌∷◌, ◌==◌, trim_space,
  split_space, equal_fold, if◌then◌else◌,
}
use sociomile.Apperror.{AppError, Error, app, record_not_found, other, fails, new}
use sociomile.Model.{User, Conversation, Ticket, role_admin, role_agent}
use sociomile.Exec.{Result, ok, err, State, Exec, pure, fail, ◌>>=◌, ◌>>◌, fail_if}
use sociomile.Gorm.{Gorm}
use sociomile.Auth.{Claims, Jwt, Compare, parse_token, lift}
use sociomile.Cache.{Client}
use sociomile.Service.Auth.{LoginResult, login, get_me, list_agents}
use sociomile.Service.Conversation.{
  get_conversation, assign_conversation, reply_to_conversation, close_conversation,
}
use sociomile.Service.Webhook.{WebhookInput, allow_webhook, handle_webhook}
use sociomile.Service.Ticket.{EscalateTicketInput, get_ticket, escalate_conversation, update_status}

-- `JSON` and `Error` of the package response: the status and the body.
pub data Response (A : Type 0) : Type 0 where
  success : ℕ → A → Response A
  failure : AppError → Response A

-- `Error`
unfoldable pub error_response : Error → AppError
error_response (app e) = e
error_response record_not_found = new 404 "not_found" "resource not found"
error_response (other text) = new 500 "internal_error" "internal server error"

abbrev pub answered : {A W : Type 0} → ℕ → Result A × State W → Response A × State W
answered status (ok a, s) = (success status a, s)
answered status (err e, s) = (failure (error_response e), s)

-- What a handler sends after its service call; the error handler of the application does the same
-- with an error that a middleware returns.
unfoldable pub respond : {A W : Type 0} → ℕ → Exec W A → State W → Response A × State W
respond status m s = answered status (m s)

abbrev pub checked_token : Result Claims → Result Claims
checked_token (ok claims) = ok claims
checked_token (err e) = err (fails 401 "invalid_token" "access token is invalid")

abbrev pub bearer_claims : Jwt → String → Option (String × String) → Result Claims
bearer_claims jwt secret none =
    err (fails 401 "invalid_token" "authorization header must use Bearer token")
bearer_claims jwt secret (some (scheme, token)) =
    if equal_fold scheme "Bearer"
    then checked_token (parse_token jwt secret token)
    else err (fails 401 "invalid_token" "authorization header must use Bearer token")

-- `Auth`: the claims that it stores for the handlers behind it
unfoldable pub authenticate : Jwt → String → String → Result Claims
authenticate jwt secret header =
    if header == ""
    then err (fails 401 "missing_token" "authorization header is required")
    else bearer_claims jwt secret (split_space header)

abbrev pub is_listed : String → List String → Bool
is_listed role [] = false
is_listed role (r ∷ roles) = role == r || is_listed role roles

-- `RequireRoles`, for the claims stored, if any
unfoldable pub require_roles : {W : Type 0} → List String → Option Claims → Exec W (Unit {0})
require_roles roles none = fail (fails 401 "missing_claims" "authenticated user context is missing")
require_roles roles (some claims) =
    fail_if (not (is_listed claims.role roles))
      (fails 403 "forbidden" "user does not have the required role")

-- `CurrentClaims`, as each handler uses it
unfoldable pub current_claims : {W : Type 0} → Option Claims → Exec W Claims
current_claims none = fail (fails 401 "missing_claims" "authenticated user context is missing")
current_claims (some claims) = pure claims

-- `c.Bind().Body(&input)`
unfoldable pub bind_body : {W A : Type 0} → Option A → Exec W A
bind_body none = fail (fails 400 "invalid_request" "request body must be valid JSON")
bind_body (some a) = pure a

module _ {W : Type 0} (g : Gorm W) (cache : Client W) where
  -- `ChannelWebhook`
  unfoldable pub channel_webhook :
      String → Option WebhookInput → State W → Response Conversation × State W
  channel_webhook ip body = respond 201 (do
    input ← bind_body body
    allow_webhook cache input.tenant_id ip
    handle_webhook g cache input)

  -- The handlers behind `Auth`, from the claims that it stored.
  -- `Reply`
  unfoldable pub reply_handler : String → Option String → Option Claims → Exec W Conversation
  reply_handler id body stored = do
    claims ← current_claims stored
    message ← bind_body body
    reply_to_conversation g cache claims.tenant_id id claims.user_id message

  -- `Assign`
  unfoldable pub assign_handler : String → Option String → Option Claims → Exec W Conversation
  assign_handler id body stored = do
    claims ← current_claims stored
    agent_id ← bind_body body
    assign_conversation g cache claims.tenant_id id claims.user_id claims.role agent_id

  -- `Close`
  unfoldable pub close_handler : String → Option Claims → Exec W Conversation
  close_handler id stored = do
    claims ← current_claims stored
    close_conversation g cache claims.tenant_id id claims.user_id claims.role

  -- `Escalate`
  unfoldable pub escalate_handler :
      String → Option EscalateTicketInput → Option Claims → Exec W Ticket
  escalate_handler id body stored = do
    claims ← current_claims stored
    input ← bind_body body
    escalate_conversation g cache claims.tenant_id id claims.user_id input

  -- `UpdateStatus`
  unfoldable pub status_handler : String → Option String → Option Claims → Exec W Ticket
  status_handler id body stored = do
    claims ← current_claims stored
    status ← bind_body body
    update_status g cache claims.tenant_id id claims.user_id claims.role status

module _ {W : Type 0} (g : Gorm W) where
  -- `Detail` of a conversation and of a ticket
  unfoldable pub conversation_detail : String → Option Claims → Exec W Conversation
  conversation_detail id stored = do
    claims ← current_claims stored
    get_conversation g claims.tenant_id id

  unfoldable pub ticket_detail : String → Option Claims → Exec W Ticket
  ticket_detail id stored = do claims ← current_claims stored; get_ticket g claims.tenant_id id

  -- `Me`
  unfoldable pub me_handler : Option Claims → Exec W User
  me_handler stored = do claims ← current_claims stored; get_me g claims.user_id claims.tenant_id

  -- `ListAgents`
  unfoldable pub agents_handler : Option Claims → Exec W (List User)
  agents_handler stored = do claims ← current_claims stored; list_agents g claims.tenant_id

  -- `Login`, of the email and the password of the body
  unfoldable pub login_handler :
      Jwt
      → Compare
      → String
      → ℤ
      → Option (String × String)
      → State W
      → Response LoginResult × State W
  login_handler jwt compare secret ttl body = respond 200 (do
    request ← bind_body body
    fail_if (trim_space request.0 == "" || request.1 == "")
        (fails 400 "invalid_request" "email and password are required")
    login g jwt compare secret ttl (trim_space request.0) request.1)

-- A route of `New` behind `Auth` and, where it has one, `RequireRoles`.
unfoldable pub protected :
    {W A : Type 0}
    → Jwt
    → String
    → Option (List String)
    → ℕ
    → (Option Claims → Exec W A)
    → String
    → State W
    → Response A × State W
protected jwt secret none status handler header =
    respond status (do claims ← lift (authenticate jwt secret header); handler (some claims))
protected jwt secret (some roles) status handler header = respond status (do
  claims ← lift (authenticate jwt secret header)
  require_roles roles (some claims)
  handler (some claims))
