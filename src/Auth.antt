-- ===== src/Auth.antt =====
-- backend/internal/auth/token.go. github.com/golang-jwt/jwt is not part of the repository: signing
-- and parsing are parameters, and so is the comparison of golang.org/x/crypto/bcrypt.
use sociomile.Prelude.{ℕ, ◌+◌, ◌-◌, ℤ, pos, negsuc, String, Bool, true, false}
use sociomile.Apperror.{other}
use sociomile.Model.{User}
use sociomile.Exec.{Result, ok, err, Exec, pure, fail, ◌>>=◌}
use sociomile.Gorm.{Gorm}
use sociomile.Gorm.Session.{now}

-- `Claims`; the times in nanoseconds
pub record Claims : Type 0 where
  pub user_id : String
  pub tenant_id : String
  pub email : String
  pub role : String
  pub subject : String
  pub issued_at : ℕ
  pub expires_at : ℕ

-- `sign` is `SignedString` of a token with HS256; `parse` is `ParseWithClaims`, which asks for the
-- key of a token by whether its method is an HMAC, and also says whether the token is valid.
pub record Jwt : Type 0 where
  pub sign : Claims → String → Result String
  pub parse : String → (Bool → Result String) → Result (Claims × Bool)

-- `CompareHashAndPassword`, whether it returns no error
abbrev pub Compare : Type 0
Compare = String → String → Bool

-- The function that `ParseToken` gives to the parser.
unfoldable pub signing_key : String → Bool → Result String
signing_key secret true = ok secret
signing_key secret false = err (other "unexpected signing method")

abbrev pub valid_claims : Result (Claims × Bool) → Result Claims
valid_claims (ok (claims, true)) = ok claims
valid_claims (ok (claims, false)) = err (other "invalid token claims")
valid_claims (err e) = err e

-- `ParseToken`
unfoldable pub parse_token : Jwt → String → String → Result Claims
parse_token jwt secret token_string = valid_claims (jwt.parse token_string (signing_key secret))

-- `now.Add(ttl)`, which a negative time to live takes back, but not before the zero time.
abbrev pub add : ℕ → ℤ → ℕ
add time (pos n) = time + n
add time (negsuc n) = time - (n + 1)

-- The claims of `GenerateToken`.
abbrev pub claims_of : User → ℕ → ℤ → Claims
claims_of user now ttl = record {
  user_id = user.id;
  tenant_id = user.tenant_id;
  email = user.email;
  role = user.role;
  subject = user.id;
  issued_at = now;
  expires_at = add now ttl;
}

abbrev pub lift : {W A : Type 0} → Result A → Exec W A
lift (ok a) = pure a
lift (err e) = fail e

-- `GenerateToken`
unfoldable pub generate_token : {W : Type 0} → Gorm W → Jwt → String → ℤ → User → Exec W String
generate_token g jwt secret ttl user = do
  time ← now g
  lift (jwt.sign (claims_of user time ttl) secret)
