-- ===== src/Examples/Access.antt =====
-- The theorems about logins and routes, applied to a signer and a parser that are the identity.
use sociomile.Prelude.{
  ℕ, pos, String, Bool, true, ◌≡◌, refl, none, some, [], ◌∷◌, ◌==◌, trim_space, split_space,
  equal_fold,
}
use sociomile.Apperror.{new}
use sociomile.Model.{Conversation, role_agent, before_create}
use sociomile.Exec.{Result, ok, err, State, pure, fail, ◌>>=◌, fail_if, catch, outside}
use sociomile.Gorm.Session.{first, find, preload, create, save, now}
use sociomile.Repository.Store.{
  within_transaction, get_user_by_email, get_user_by_id_and_tenant, preload_conversation,
  find_ticket_by_conversation, preload_ticket, ticket_or_none, get_conversation_by_id,
  save_conversation, create_message, create_activity_log, create_outbox_event,
}
use sociomile.Cache.{bump_version}
use sociomile.Auth.{Claims, Jwt, parse_token, generate_token, signing_key}
use sociomile.Service.Events.{append_domain_event}
use sociomile.Service.Conversation.{
  get_conversation, reply_to_conversation_tx, reply_to_conversation,
}
use sociomile.Service.Auth.{LoginResult, login}
use sociomile.Service.Auth.Login.{IsLoggedIn, LoginRefused, login_ok, login_err}
use sociomile.Http.{
  Response, success, failure, protected, respond, authenticate, require_roles, current_claims,
  bind_body, reply_handler,
}
use sociomile.Http.Access.{IsServed, protected_ok}
use sociomile.Examples.Engine.{engine}
use sociomile.Examples.Engine.Laws.{engine_laws}
use sociomile.Examples.Data.{free, user, conversation, value_or, error_of, returned, refused}

abbrev pub agent_claims : Claims
agent_claims = record {
  user_id = "a";
  tenant_id = "t";
  email = "a";
  role = "agent";
  subject = "a";
  issued_at = 0;
  expires_at = 10;
}

-- Every token is one of the agent, signed with an HMAC.
abbrev valid : Result String → Result (Claims × Bool)
valid (ok k) = ok (agent_claims, true)
valid (err e) = err e

abbrev pub jwt : Jwt
jwt = record { sign = λ claims secret. ok claims.user_id; parse = λ token key. valid (key true) }

abbrev login_run : Result LoginResult × State ℕ
login_run = login engine jwt (λ hash password. hash == password) "secret" (pos 60) "a" "hash" free

abbrev nobody : LoginResult
nobody = record { access_token = ""; user = user "a" "agent" }

login_ok_example :
    IsLoggedIn engine jwt
      (λ hash password. hash == password)
      "secret"
      (pos 60)
      "a"
      "hash"
      free.db
      login_run.1.db
      (value_or nobody login_run.0)
unfolding login get_user_by_email generate_token first preload now pure fail ◌>>=◌ fail_if catch
    outside new
login_ok_example =
    login_ok engine engine_laws jwt (λ hash password. hash == password) "secret" (pos 60) "a" "hash"
      free (value_or nobody login_run.0) login_run.1 (returned nobody login_run tt)

abbrev bad_login : Result LoginResult × State ℕ
bad_login = login engine jwt (λ hash password. hash == password) "secret" (pos 60) "a" "guess" free

login_err_example :
    (bad_login.1.db ≡ free.db)
    × LoginRefused engine jwt
        (λ hash password. hash == password)
        "secret"
        (pos 60)
        "a"
        "guess"
        free.db
        (error_of bad_login.0)
unfolding login get_user_by_email generate_token first preload now pure fail ◌>>=◌ fail_if catch
    outside new
login_err_example =
    login_err engine engine_laws jwt (λ hash password. hash == password) "secret" (pos 60) "a"
      "guess" free (error_of bad_login.0) bad_login.1 (refused bad_login tt)

-- A request of the agent to the route that posts a reply.
abbrev posted : Response Conversation × State ℕ
posted =
    protected jwt "secret" (some (role_agent ∷ [])) 200 (reply_handler engine none "c" (some "hi"))
      "bearer x" free

abbrev pub sent_status : {A : Type 0} → Response A → ℕ
sent_status (success n a) = n
sent_status (failure e) = 0

abbrev pub sent : {A : Type 0} → A → Response A → A
sent a (success n b) = b
sent a (failure e) = a

abbrev pub IsSuccess : {A : Type 0} → Response A → Type 0
IsSuccess (success n a) = Unit
IsSuccess (failure e) = ⊥

pub answer :
    {A : Type 0} (a : A) (r : Response A × State ℕ)
    → IsSuccess r.0
    → r ≡ (success (sent_status r.0) (sent a r.0), r.1)
answer a (success n b, s) h = refl
answer a (failure e, s) h = elim h [ ]

protected_ok_example :
    IsServed jwt "secret"
      (some (role_agent ∷ []))
      200
      (reply_handler engine none "c" (some "hi"))
      "bearer x"
      free
      (sent_status posted.0)
      (sent (conversation "" none) posted.0)
      posted.1
unfolding protected respond authenticate require_roles reply_handler current_claims bind_body
    parse_token signing_key split_space equal_fold reply_to_conversation reply_to_conversation_tx
    get_conversation append_domain_event bump_version within_transaction get_user_by_id_and_tenant
    preload_conversation find_ticket_by_conversation preload_ticket ticket_or_none
    get_conversation_by_id save_conversation create_message create_activity_log create_outbox_event
    first find preload create save now pure fail ◌>>=◌ fail_if catch outside trim_space new
    before_create
protected_ok_example =
    protected_ok jwt "secret" (some (role_agent ∷ [])) 200
      (reply_handler engine none "c" (some "hi")) "bearer x" free (sent_status posted.0)
      (sent (conversation "" none) posted.0) posted.1 (answer (conversation "" none) posted tt)
