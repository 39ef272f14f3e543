-- ===== src/Service/Auth.antt =====
-- backend/internal/service/auth_service.go and backend/internal/service/user_service.go.
pub mod Login
use sociomile.Prelude.{ℕ, ℤ, String, Bool, not, List}
use sociomile.Apperror.{fails}
use sociomile.Model.{User, role_agent}
use sociomile.Exec.{Exec, pure, fail, ◌>>=◌, ◌>>◌, fail_if, catch}
use sociomile.Gorm.{Gorm}
use sociomile.Auth.{Jwt, Compare, generate_token}
use sociomile.Repository.Store.{get_user_by_email, get_user_by_id_and_tenant, list_users_by_role}

-- `LoginResult`
pub record LoginResult : Type 0 where
  pub access_token : String
  pub user : User

module _ {W : Type 0} (g : Gorm W) (jwt : Jwt) (compare : Compare) (secret : String) (ttl : ℤ) where
  -- `Login`
  unfoldable pub login : (email password : String) → Exec W LoginResult
  login email password = do
    user ←
        catch (get_user_by_email g email)
          (λ e. fail (fails 401 "invalid_credentials" "email or password is invalid"))
    fail_if (not user.active) (fails 403 "inactive_user" "user is inactive")
    fail_if (not (compare user.password_hash password))
        (fails 401 "invalid_credentials" "email or password is invalid")
    token ← generate_token g jwt secret ttl user
    pure (record { access_token = token; user = user })

module _ {W : Type 0} (g : Gorm W) where
  -- `GetMe`
  unfoldable pub get_me : (user_id tenant_id : String) → Exec W User
  get_me user_id tenant_id = get_user_by_id_and_tenant g user_id tenant_id

  -- `ListAgents`
  unfoldable pub list_agents : String → Exec W (List User)
  list_agents tenant_id = list_users_by_role g tenant_id role_agent
