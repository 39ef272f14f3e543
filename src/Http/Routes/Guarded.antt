-- ===== src/Http/Routes/Guarded.antt =====
-- backend/internal/http/router/router.go: who the routes of `New` let through, and what everyone else
-- gets.
use sociomile.Prelude.{
  ℕ, String, ◌≡◌, inl, inr, refl, subst, Bool, true, false, not, Option, none, some, List, [], ◌∷◌,
  ◌==◌, Bool-cases, equal_fold, split_space,
}
use sociomile.Apperror.{AppError, other, new, fails}
use sociomile.Exec.{Result, ok, err, State, Exec, pure, fail, ◌>>=◌, ◌>>◌, fail_if}
use sociomile.Auth.{Claims, Jwt, parse_token}
use sociomile.Model.{role_admin, role_agent}
use sociomile.Http.Lists.{conversations_handler, tickets_handler}
use sociomile.Http.{
  me_handler, agents_handler, conversation_detail, reply_handler, assign_handler, close_handler,
  escalate_handler, ticket_detail, status_handler, Response, failure, respond, protected,
  error_response, authenticate, bearer_claims, checked_token, require_roles, is_listed,
}
use sociomile.Http.Access.{IsBearer, IsAllowed, authenticated}
use sociomile.Http.Routes.{
  Route, get_health, post_login, post_webhook, get_me, get_agents, get_conversations,
  get_conversation, post_message, patch_assign, patch_close, post_escalate, get_tickets, get_ticket,
  patch_status, get_root, no_route, no_protected_route, Request, Body, Server, sent, behind, access,
  dispatch,
}

-- How a route behind the middleware deals with a header, at the state `s`: the header has a token that
-- is good for the route; or the answer is 401, or 403 where the token is good and its role is not, and
-- nothing was touched.
pub data IsGuarded {W : Type 0} (jwt : Jwt) (secret header : String) (roles : Option (List String))
    (s : State W) (answer : Response Body × State W) : Type 0 where
  admitted :
      (claims : Claims)
      → IsBearer jwt secret header claims
      → IsAllowed roles claims.role
      → IsGuarded jwt secret header roles s answer
  unauthorized :
      (e : AppError)
      → e.status ≡ 401
      → answer ≡ (failure e, s)
      → IsGuarded jwt secret header roles s answer
  forbidden :
      (claims : Claims) (allowed : List String)
      → IsBearer jwt secret header claims
      → roles ≡ some allowed
      → is_listed claims.role allowed ≡ false
      → answer ≡ (failure (new 403 "forbidden" "user does not have the required role"), s)
      → IsGuarded jwt secret header roles s answer

abbrev Is401 : Result Claims → Type 0
Is401 (ok c) = Unit
Is401 (err e) = (error_response e).status ≡ 401

checked_401 : (r : Result Claims) → Is401 (checked_token r)
unfolding error_response new
checked_401 (ok c) = tt
checked_401 (err e) = refl

bearer_401 :
    (jwt : Jwt) (secret : String) (p : Option (String × String))
    → Is401 (bearer_claims jwt secret p)
unfolding error_response new
bearer_401 jwt secret none = refl
bearer_401 jwt secret (some (scheme, token)) = elim (Bool-cases (equal_fold scheme "Bearer")) [
  | inl bears ↦ rw bears (checked_401 (parse_token jwt secret token))
  | inr lacks ↦ rw lacks refl
]

authenticate_401 : (jwt : Jwt) (secret header : String) → Is401 (authenticate jwt secret header)
unfolding authenticate error_response new
authenticate_401 jwt secret header = elim (Bool-cases (header == "")) [
  | inl empty ↦ rw empty refl
  | inr given ↦ rw given (bearer_401 jwt secret (split_space header))
]

some_same : {A : Type 0} (a b : A) → some a ≡ some b → a ≡ b
some_same a b e = cc

module _ {W : Type 0} (srv : Server W) (r : Request) (s : State W) where
  module _ {A : Type 0} (status : ℕ) (f : A → Body) (handler : Option Claims → Exec W A) where
    listed_guard :
        (allowed : List String) (claims : Claims) (b : Bool)
        → is_listed claims.role allowed ≡ b
        → IsBearer srv.jwt srv.secret r.authorization claims
        → IsGuarded srv.jwt srv.secret r.authorization (some allowed) s (
            sent f (
              respond status
                (fail_if (not b) (fails 403 "forbidden" "user does not have the required role")
                  >> handler (some claims))
                s))
    unfolding fail_if respond fail ◌>>=◌ error_response new
    listed_guard allowed claims true listed bearer = admitted claims bearer listed
    listed_guard allowed claims false unlisted bearer =
        forbidden claims allowed bearer refl unlisted refl

    behind_guard :
        (roles : Option (List String)) (a : Result Claims)
        → authenticate srv.jwt srv.secret r.authorization ≡ a
        → Is401 a
        → IsGuarded srv.jwt srv.secret r.authorization roles s
            (behind srv roles status f handler r s)
    unfolding protected respond require_roles fail ◌>>=◌ pure
    behind_guard none (ok claims) e h =
        admitted claims (authenticated srv.jwt srv.secret r.authorization claims e) tt
    behind_guard none (err x) e h = unauthorized (error_response x) h (rw e refl)
    behind_guard (some allowed) (ok claims) e h = rw e (
        listed_guard allowed claims (is_listed claims.role allowed) refl
          (authenticated srv.jwt srv.secret r.authorization claims e))
    behind_guard (some allowed) (err x) e h = unauthorized (error_response x) h (rw e refl)

  guard :
      {A : Type 0} (allowed roles : Option (List String)) (status : ℕ) (f : A → Body)
      (handler : Option Claims → Exec W A)
      → some allowed ≡ some roles
      → IsGuarded srv.jwt srv.secret r.authorization roles s
          (behind srv allowed status f handler r s)
  guard allowed roles status f handler e =
      subst
        (λ x.
          IsGuarded srv.jwt srv.secret r.authorization x s
            (behind srv allowed status f handler r s))
        (some_same allowed roles e)
        (behind_guard status f handler allowed (authenticate srv.jwt srv.secret r.authorization)
          refl (authenticate_401 srv.jwt srv.secret r.authorization))

  -- Each route that is not open to all either has a Bearer token that the parser accepts under the
  -- secret, of a role that the route lists where it lists roles; or it answers 401, or 403 where only the
  -- role is wrong, and then neither the tables nor the world were touched.
  pub dispatch_guard :
      (route : Route) (roles : Option (List String))
      → access route ≡ some roles
      → IsGuarded srv.jwt srv.secret r.authorization roles s (dispatch srv route r s)
  unfolding access dispatch
  dispatch_guard get_health roles e = absurd (cc)
  dispatch_guard post_login roles e = absurd (cc)
  dispatch_guard post_webhook roles e = absurd (cc)
  dispatch_guard get_me roles e = guard none roles 200 Body.user (me_handler srv.gorm) e
  dispatch_guard get_agents roles e = guard none roles 200 Body.users (agents_handler srv.gorm) e
  dispatch_guard get_conversations roles e =
      guard none roles 200 Body.conversations
        (conversations_handler srv.gorm srv.cache srv.conversation_codec r.query) e
  dispatch_guard (get_conversation id) roles e =
      guard none roles 200 Body.conversation (conversation_detail srv.gorm id) e
  dispatch_guard (post_message id) roles e =
      guard (some (role_agent ∷ [])) roles 200 Body.conversation
        (reply_handler srv.gorm srv.cache id r.message) e
  dispatch_guard (patch_assign id) roles e =
      guard (some (role_admin ∷ [])) roles 200 Body.conversation
        (assign_handler srv.gorm srv.cache id r.agent_id) e
  dispatch_guard (patch_close id) roles e =
      guard (some (role_admin ∷ role_agent ∷ [])) roles 200 Body.conversation
        (close_handler srv.gorm srv.cache id) e
  dispatch_guard (post_escalate id) roles e =
      guard (some (role_agent ∷ [])) roles 201 Body.ticket
        (escalate_handler srv.gorm srv.cache id r.ticket) e
  dispatch_guard get_tickets roles e =
      guard none roles 200 Body.tickets
        (tickets_handler srv.gorm srv.cache srv.ticket_codec r.query) e
  dispatch_guard (get_ticket id) roles e =
      guard none roles 200 Body.ticket (ticket_detail srv.gorm id) e
  dispatch_guard (patch_status id) roles e =
      guard (some (role_admin ∷ [])) roles 200 Body.ticket
        (status_handler srv.gorm srv.cache id r.status) e
  dispatch_guard no_route roles e = absurd (cc)
  dispatch_guard no_protected_route roles e =
      guard none roles 200 Body.text (λ claims. fail (other r.route_error)) e
  dispatch_guard get_root roles e = absurd (cc)
