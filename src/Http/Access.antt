-- ===== src/Http/Access.antt =====
-- backend/internal/http/middleware/auth.go and backend/internal/http/router/router.go: who a route
-- behind `Auth` and `RequireRoles` serves.
use mathlib.Core.Bool.{false≢true}
use sociomile.Prelude.{
  ℕ, String, ◌≡◌, ◌≢◌, inl, inr, refl, sym, ap, Bool, true, false, not, Option, none, some, List,
  [], ◌∷◌, ◌==◌, eq_iff, Bool-cases, equal_fold, split_space,
}
use sociomile.Apperror.{AppError, Error}
use sociomile.Exec.{Result, ok, err, State, Exec, pure, fail, ◌>>=◌, ◌>>◌, fail_if}
use sociomile.Auth.{Claims, Jwt, lift, parse_token}
use sociomile.Http.{
  success, failure, answered, respond, is_listed, authenticate, bearer_claims, checked_token,
  require_roles, bind_body, protected,
}
use sociomile.Exec.Results.{ok≢err}

pub success_injective :
    {A : Type 0} (m n : ℕ) (a b : A) → success m a ≡ success n b → (m ≡ n) × (a ≡ b)
success_injective m n a b h = (cc, cc)

pub success≢failure : {A : Type 0} (n : ℕ) (a : A) (e : AppError) → success n a ≢ failure e
success≢failure n a e h = cc

module _ {W A : Type 0} {a : A} {s' : State W} where
  -- The service call behind a response with data.
  responded :
      (status n : ℕ) (m : Exec W A) (s : State W)
      → respond status m s ≡ (success n a, s')
      → (n ≡ status) × (m s ≡ (ok a, s'))
  unfolding respond
  responded status n m s e = go (m s).0 (m s).1 e
    where
      go :
          (r : Result A) (t : State W)
          → answered status (r, t) ≡ (success n a, s')
          → (n ≡ status) × (◌≡◌ {A = Result A × State W} (r, t) (ok a, s'))
      go (ok b) t e =
          let (same, value) = success_injective status n b a (ap (λ p. p.0) e) in
          (sym same, λ i. (ok (value i), (e i).1))
      go (err x) t e = absurd (success≢failure n a _ (sym (ap (λ p. p.0) e)))

  -- A guard that was passed.
  passed :
      (b : Bool) (x : Error) (m : Exec W A) (s : State W)
      → (fail_if (not b) x >> m) s ≡ (ok a, s')
      → (b ≡ true) × (m s ≡ (ok a, s'))
  unfolding fail_if pure fail ◌>>=◌
  passed true x m s e = (refl, e)
  passed false x m s e = absurd (ok≢err a x (sym (ap (λ p. p.0) e)))

  -- A value that was there.
  lifted :
      {B : Type 0} (r : Result B) (k : B → Exec W A) (s : State W)
      → (lift r >>= k) s ≡ (ok a, s')
      → (b : B) × (r ≡ ok b) × (k b s ≡ (ok a, s'))
  unfolding pure fail ◌>>=◌
  lifted (ok b) k s e = (b, refl, e)
  lifted (err x) k s e = absurd (ok≢err a x (sym (ap (λ p. p.0) e)))

  pub bound :
      {B : Type 0} (body : Option B) (k : B → Exec W A) (s : State W)
      → (bind_body body >>= k) s ≡ (ok a, s')
      → (b : B) × (body ≡ some b) × (k b s ≡ (ok a, s'))
  unfolding bind_body pure fail ◌>>=◌
  bound none k s e = absurd (ok≢err a _ (sym (ap (λ p. p.0) e)))
  bound (some b) k s e = (b, refl, e)

-- The roles that a route allows, where it asks for one.
abbrev pub IsAllowed : Option (List String) → String → Type 0
IsAllowed none role = Unit
IsAllowed (some roles) role = is_listed role roles ≡ true

-- The header holds a Bearer token that parses to the claims.
pub record IsBearer (jwt : Jwt) (secret header : String) (claims : Claims) : Type 0 where
  pub scheme : String
  pub token : String
  pub parts : split_space header ≡ some (scheme, token)
  pub is_bearer : equal_fold scheme "Bearer" ≡ true
  pub parsed : parse_token jwt secret token ≡ ok claims

-- How a route that answers with data got there.
pub record IsServed {W A : Type 0} (jwt : Jwt) (secret : String) (roles : Option (List String))
    (status : ℕ) (handler : Option Claims → Exec W A) (header : String) (s : State W) (n : ℕ)
    (a : A) (s' : State W) : Type 0 where
  pub claims : Claims
  pub bearer : IsBearer jwt secret header claims
  pub allowed : IsAllowed roles claims.role
  pub same_status : n ≡ status
  pub served : handler (some claims) s ≡ (ok a, s')

module _ (jwt : Jwt) (secret header : String) (claims : Claims) where
  checked : (r : Result Claims) → checked_token r ≡ ok claims → r ≡ ok claims
  checked (ok c) e = e
  checked (err x) e = absurd (ok≢err claims _ (sym e))

  bearer_lem :
      (p : Option (String × String))
      → split_space header ≡ p
      → bearer_claims jwt secret p ≡ ok claims
      → IsBearer jwt secret header claims
  bearer_lem none same e = absurd (ok≢err claims _ (sym e))
  bearer_lem (some (scheme, token)) same e = elim (Bool-cases (equal_fold scheme "Bearer")) [
    | inl bears ↦ record {
      scheme = scheme;
      token = token;
      parts = same;
      is_bearer = bears;
      parsed = checked (parse_token jwt secret token) (rw bears at e);
    }
    | inr lacks ↦ absurd (ok≢err claims _ (sym (rw lacks at e)))
  ]

  pub authenticated : authenticate jwt secret header ≡ ok claims → IsBearer jwt secret header claims
  unfolding authenticate
  authenticated e = elim (Bool-cases (header == "")) [
    | inl empty ↦ absurd (ok≢err claims _ (sym (rw empty at e)))
    | inr given ↦ bearer_lem (split_space header) refl (rw given at e)
  ]

-- A route behind the middleware answers with data only to a Bearer token that the parser accepts
-- under the secret, whose role is one of the route's where it asks for roles; then its handler ran
-- with the claims of that token, and its status is sent.
pub protected_ok :
    {W A : Type 0} (jwt : Jwt) (secret : String) (roles : Option (List String)) (status : ℕ)
    (handler : Option Claims → Exec W A) (header : String) (s : State W) (n : ℕ) (a : A)
    (s' : State W)
    → protected jwt secret roles status handler header s ≡ (success n a, s')
    → IsServed jwt secret roles status handler header s n a s'
unfolding protected require_roles
protected_ok jwt secret none status handler header s n a s' e =
    let (same, run) = responded status n _ s e in
    let (claims, parsed, ran) = lifted (authenticate jwt secret header) _ s run in
    record {
      claims = claims;
      bearer = authenticated jwt secret header claims parsed;
      allowed = tt;
      same_status = same;
      served = ran;
    }
protected_ok jwt secret (some roles) status handler header s n a s' e =
    let (same, run) = responded status n _ s e in
    let (claims, parsed, ran) = lifted (authenticate jwt secret header) _ s run in
    let (allowed, served) = passed (is_listed claims.role roles) _ (handler (some claims)) s ran in
    record {
      claims = claims;
      bearer = authenticated jwt secret header claims parsed;
      allowed = allowed;
      same_status = same;
      served = served;
    }

pub listed_one : (role only : String) → is_listed role (only ∷ []) ≡ true → role ≡ only
listed_one role only h = elim (Bool-cases (role == only)) [
  | inl same ↦ (eq_iff _ _).0 same
  | inr other ↦ absurd (false≢true (rw other at h))
]
