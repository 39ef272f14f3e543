-- ===== src/Service/Auth/Login.antt =====
-- backend/internal/service/auth_service.go: who `Login` lets in, and why it refuses the others.
use sociomile.Prelude.{
  ℕ, ℤ, pos, negsuc, ◌+◌, ◌-◌, ap, String, ◌≡◌, refl, true, false, Option, some, Member, ◌==◌,
  eq_iff,
}
use sociomile.Apperror.{Error, fails}
use sociomile.Model.{Db, User, Tenant}
use sociomile.Exec.{Result, ok, err, State, fail, catch}
use sociomile.Exec.Ends.{
  Ends, ends_guard, ends_catch, ends_pure, ends_fail, ends_weaken, ends_ok, ends_err,
}
use sociomile.Gorm.{Gorm, unordered}
use sociomile.Gorm.Laws.{GormLaws, beside}
use sociomile.Gorm.Session.Rules.{
  Reads, reads_seq, IsMissed, IsMissed-reads, preload_missed, now_reads, IsNow, Loaded,
}
use sociomile.Auth.{Jwt, Claims, Compare, add, claims_of, lift, generate_token}
use sociomile.Gorm.Session.{preload}
use sociomile.Repository.Tables
use sociomile.Repository.Store.{get_user_by_email}
use sociomile.Service.Conversation.Commit.{not-true, not-false}
use sociomile.Service.Auth.{LoginResult, login}

-- A user with that email, with the tenant beside it.
pub record IsUser (d : Db) (email : String) (user : User) : Type 0 where
  pub row : User
  pub listed : Member row d.users
  pub has_email : row.email ≡ email
  pub tenant : Option Tenant
  pub fields : user ≡ record row { tenant = tenant }
  pub tenant_loaded : Loaded (λ r. r.id) (some row.tenant_id) d.tenants tenant

-- The claims are those of the user, given at `time`, and they expire when the time to live is over.
pub record IsTokenOf (user : User) (time : ℕ) (ttl : ℤ) (claims : Claims) : Type 0 where
  pub same_user : claims.user_id ≡ user.id
  pub same_subject : claims.subject ≡ user.id
  pub same_tenant : claims.tenant_id ≡ user.tenant_id
  pub same_email : claims.email ≡ user.email
  pub same_role : claims.role ≡ user.role
  pub issued : claims.issued_at ≡ time
  pub expires : (n : ℕ) → ttl ≡ pos n → claims.expires_at ≡ time + n
  pub expired : (n : ℕ) → ttl ≡ negsuc n → claims.expires_at ≡ time - (n + 1)

claims-IsTokenOf :
    (user : User) (time : ℕ) (ttl : ℤ) → IsTokenOf user time ttl (claims_of user time ttl)
claims-IsTokenOf user time ttl = record {
  same_user = refl;
  same_subject = refl;
  same_tenant = refl;
  same_email = refl;
  same_role = refl;
  issued = refl;
  expires = λ n e. ap (add time) e;
  expired = λ n e. ap (add time) e;
}

-- What a login that succeeds returns, with the tables as they were.
pub record IsLoggedIn {W : Type 0} (g : Gorm W) (jwt : Jwt) (compare : Compare) (secret : String)
    (ttl : ℤ) (email password : String) (d d' : Db) (r : LoginResult) : Type 0 where
  pub same : d' ≡ d
  pub is_user : IsUser d email r.user
  pub active : r.user.active ≡ true
  pub password_fits : compare r.user.password_hash password ≡ true
  pub time : ℕ
  pub told : IsNow g time
  pub claims : Claims
  pub is_token : IsTokenOf r.user time ttl claims
  pub signed : jwt.sign claims secret ≡ ok r.access_token

-- A step of the lookup of the user was answered with an error: the row, or its tenant.
pub data IsNotLoaded {W : Type 0} (g : Gorm W) (d : Db) (email : String) : Type 0 where
  no_row :
      (x : Error) → IsMissed g (unordered (λ r. r.email == email)) d.users x → IsNotLoaded g d email
  no_tenant :
      (row : User)
      → Member row d.users
      → row.email ≡ email
      → (x : Error) (before later : W)
      → g.preload (λ r. r.id) (some row.tenant_id) d.tenants before ≡ (err x, later)
      → IsNotLoaded g d email

-- Why a login is refused.
pub data LoginRefused {W : Type 0} (g : Gorm W) (jwt : Jwt) (compare : Compare) (secret : String)
    (ttl : ℤ) (email password : String) (d : Db) (e : Error) : Type 0 where
  no_user :
      IsNotLoaded g d email
      → e ≡ fails 401 "invalid_credentials" "email or password is invalid"
      → LoginRefused g jwt compare secret ttl email password d e
  inactive :
      (user : User)
      → IsUser d email user
      → user.active ≡ false
      → e ≡ fails 403 "inactive_user" "user is inactive"
      → LoginRefused g jwt compare secret ttl email password d e
  wrong_password :
      (user : User)
      → IsUser d email user
      → user.active ≡ true
      → compare user.password_hash password ≡ false
      → e ≡ fails 401 "invalid_credentials" "email or password is invalid"
      → LoginRefused g jwt compare secret ttl email password d e
  unsigned :
      (user : User)
      → IsUser d email user
      → (time : ℕ) (claims : Claims) → IsNow g time
      → IsTokenOf user time ttl claims
      → jwt.sign claims secret ≡ err e
      → LoginRefused g jwt compare secret ttl email password d e

module _ {W A : Type 0} (s : State W) where
  lift_reads : (r : Result A) → Reads (lift r) s (λ a. r ≡ ok a) (λ e. r ≡ err e)
  lift_reads (ok a) = record { reads = ends_pure a (refl, refl) }
  lift_reads (err e) = record { reads = ends_fail e (refl, refl) }

module _ {W : Type 0} (g : Gorm W) (laws : GormLaws g) (s : State W) where
  IsUser-reads :
      (email : String)
      → Reads (get_user_by_email g email) s (IsUser s.db email) (λ e. IsNotLoaded g s.db email)
  unfolding get_user_by_email
  IsUser-reads email = record {
    reads =
        reads_seq _ _ (IsMissed-reads g laws s Tables.users (unordered (λ r. r.email == email)))
          (λ row w found.
            reads_seq _ _ (tenant_reads row (beside s w))
              (λ tenant w loaded. ends_pure _ (
                refl,
                record {
                  row = row;
                  listed = found.0;
                  has_email = (eq_iff _ _).0 found.1;
                  tenant = tenant;
                  fields = refl;
                  tenant_loaded = loaded;
                },
              ))
              (λ e w (before, later, answered).
                (refl, no_tenant row found.0 ((eq_iff _ _).0 found.1) e before later answered)))
          (λ e w f. (refl, no_row e f));
  }
    where
      tenant_reads :
          (row : User) (t : State W)
          → Reads
              (preload g Tables.tenants (λ r. r.id) (some row.tenant_id))
              t
              (Loaded (λ r. r.id) (some row.tenant_id) t.db.tenants)
              (λ e.
                (before : W) × (later : W) × (g.preload
                    (λ r. r.id)
                    (some row.tenant_id)
                    t.db.tenants
                    before
                  ≡ (err e, later)))
      tenant_reads row t = preload_missed g laws t Tables.tenants (λ r. r.id) (some row.tenant_id)

  token_reads :
      (jwt : Jwt) (secret : String) (ttl : ℤ) (user : User)
      → Reads
          (generate_token g jwt secret ttl user)
          s
          (λ token.
            (time : ℕ) × IsNow g time × (jwt.sign (claims_of user time ttl) secret ≡ ok token))
          (λ e. (time : ℕ) × IsNow g time × (jwt.sign (claims_of user time ttl) secret ≡ err e))
  unfolding generate_token
  token_reads jwt secret ttl user = record {
    reads =
        reads_seq _ _ (now_reads g laws s)
          (λ time w u.
            ends_weaken _
              (lift_reads (beside s w) (jwt.sign (claims_of user time ttl) secret)).reads
              (λ token s' p. (p.0, (time, u, p.1))) (λ e s' p. (p.0, (time, u, p.1))))
          (λ e w x. absurd x);
  }

module _ {W : Type 0} (g : Gorm W) (laws : GormLaws g) (jwt : Jwt) (compare : Compare)
    (secret : String) (ttl : ℤ) (email password : String) (s : State W) where
  login_ends :
      Ends
        (login g jwt compare secret ttl email password)
        s
        (λ r s'. IsLoggedIn g jwt compare secret ttl email password s.db s'.db r)
        (λ e s'. (s'.db ≡ s.db) × LoginRefused g jwt compare secret ttl email password s.db e)
  unfolding login
  login_ends =
      reads_seq _ _ found
        (λ user w is_user.
          ends_guard _ _ _ (λ off. (refl, inactive user is_user (not-true user.active off) refl))
            (λ on.
              ends_guard _ _ _
                (λ wrong. (
                  refl,
                  wrong_password user is_user (not-false user.active on)
                      (not-true (compare user.password_hash password) wrong) refl,
                ))
                (λ right.
                  reads_seq _ _ (token_reads g laws (beside s w) jwt secret ttl user)
                    (λ token w signed. ends_pure _ (record {
                      same = refl;
                      is_user = is_user;
                      active = not-false user.active on;
                      password_fits = not-false (compare user.password_hash password) right;
                      time = signed.0;
                      told = signed.1;
                      claims = claims_of user signed.0 ttl;
                      is_token = claims-IsTokenOf user signed.0 ttl;
                      signed = signed.2;
                    }))
                    (λ e w f. (
                      refl,
                      unsigned user is_user f.0 _ f.1 (claims-IsTokenOf user f.0 ttl) f.2,
                    )))))
        (λ e w p. (refl, no_user p.1 p.0))
    where
      found :
          Reads
            (catch
              (get_user_by_email g email)
              (λ e. fail (fails 401 "invalid_credentials" "email or password is invalid")))
            s
            (IsUser s.db email)
            (λ e.
              (e ≡ fails 401 "invalid_credentials" "email or password is invalid")
              × IsNotLoaded g s.db email)
      found = record {
        reads =
            ends_catch _ _ (IsUser-reads g laws s email).reads (λ u s' p. p)
              (λ e s' p. ends_fail _ (p.0, (refl, p.1)));
      }

  -- A login that succeeds is by an active user with that email whose password fits; the token is
  -- signed for that user, tenant and role, and expires when the time to live is over. No table
  -- changes.
  pub login_ok :
      (r : LoginResult) (s' : State W)
      → login g jwt compare secret ttl email password s ≡ (ok r, s')
      → IsLoggedIn g jwt compare secret ttl email password s.db s'.db r
  login_ok r s' e = ends_ok login_ends r s' e

  -- A login that fails changes no table. Its error is 403 only for an inactive user with that email,
  -- whatever the password; 401 where a query for the user or for its tenant was answered with an
  -- error, or the password does not fit; or that of
  -- the signature.
  pub login_err :
      (e : Error) (s' : State W)
      → login g jwt compare secret ttl email password s ≡ (err e, s')
      → (s'.db ≡ s.db) × LoginRefused g jwt compare secret ttl email password s.db e
  login_err e s' h = ends_err login_ends e s' h
