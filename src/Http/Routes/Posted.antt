-- ===== src/Http/Routes/Posted.antt =====
-- backend/internal/http/router/router.go: what `POST /conversations/:id/messages` has done when it answers
-- with data.
use sociomile.Prelude.{ℕ, String, ◌≡◌, sym, ap, some, [], ◌∷◌, trim_space}
use sociomile.Model.{Conversation, role_agent}
use sociomile.Exec.{State, pure, ◌>>=◌}
use sociomile.Gorm.Laws.{GormLaws}
use sociomile.Auth.{Claims}
use sociomile.Service.Conversation.{reply_to_conversation}
use sociomile.Service.Conversation.Reply.{Replied, reply_to_conversation_ok}
use sociomile.Http.{Response, success, failure, current_claims, reply_handler}
use sociomile.Http.Access.{
  IsBearer, protected_ok, bound, listed_one, success_injective, success≢failure,
}
use sociomile.Http.Routes.{Request, Body, conversation, Server, sent, dispatch, post_message}

-- The response whose data was sent.
sent_lem :
    {W A : Type 0} (f : A → Body) (x : Response A × State W) (n : ℕ) (b : Body) (s' : State W)
    → sent f x ≡ (success n b, s')
    → (a : A) × (x ≡ (success n a, s')) × (b ≡ f a)
sent_lem f (success m a, t) n b s' e =
    let (same, value) = success_injective m n (f a) b (ap (λ p. p.0) e) in
    (a, (λ i. (success (same i) a, (e i).1)), sym value)
sent_lem f (failure x, t) n b s' e = absurd (success≢failure n b x (sym (ap (λ p. p.0) e)))

-- A reply was posted in the tenant and in the name of the token that the request carries.
pub record IsPosted {W : Type 0} (srv : Server W) (id : String) (r : Request) (s : State W) (n : ℕ)
    (body : Body) (s' : State W) : Type 0 where
  pub claims : Claims
  pub bearer : IsBearer srv.jwt srv.secret r.authorization claims
  pub by_agent : claims.role ≡ "agent"
  pub message : String
  pub given : r.message ≡ some message
  pub c : Conversation
  pub same_body : body ≡ conversation c
  pub same_status : n ≡ 200
  pub replied : Replied claims.tenant_id id claims.user_id (trim_space message) s.db s'.db c

module _ {W : Type 0} (srv : Server W) (laws : GormLaws srv.gorm) where
  -- The route that posts a reply answers with data only to a Bearer token of an agent, with a body
  -- that is valid JSON; then it has replied in the tenant and in the name of that token, and sends
  -- the conversation with status 200.
  pub reply_route_ok :
      (id : String) (r : Request) (s : State W) (n : ℕ) (body : Body) (s' : State W)
      → dispatch srv (post_message id) r s ≡ (success n body, s')
      → IsPosted srv id r s n body s'
  unfolding dispatch reply_handler current_claims pure ◌>>=◌
  reply_route_ok id r s n body s' e =
      let (c, ran, same) = sent_lem conversation _ n body s' e in
      let served =
        protected_ok srv.jwt srv.secret (some (role_agent ∷ [])) 200
          (reply_handler srv.gorm srv.cache id r.message) r.authorization s n c s' ran in
      let (message, given, replied) =
        bound r.message
          (λ m.
            reply_to_conversation srv.gorm srv.cache served.claims.tenant_id id
              served.claims.user_id m)
          s served.served in
      record {
        claims = served.claims;
        bearer = served.bearer;
        by_agent = listed_one served.claims.role role_agent served.allowed;
        message = message;
        given = given;
        c = c;
        same_body = same;
        same_status = served.same_status;
        replied =
            reply_to_conversation_ok srv.gorm laws srv.cache served.claims.tenant_id id
              served.claims.user_id message s c s' replied;
      }
