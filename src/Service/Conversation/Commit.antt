-- ===== src/Service/Conversation/Commit.antt =====
-- backend/internal/service: the end of each method that writes, which is a transaction, the bump of
-- the list cache, and the reload of the record.
use sociomile.Prelude.{
  String, Bool, true, false, not, Member, ◌==◌, eq_iff, arith, ◌≡◌, ◌≢◌, ◌∙◌, ◌&&◌, ◌⊎◌, inl, inr,
  refl, sym, subst,
}
use sociomile.Apperror.{Error}
use sociomile.Model.{Db, User, role_agent}
use sociomile.Exec.{State, Exec, ◌>>=◌, catch, fail}
use sociomile.Exec.Ends.{Ends, ends_seq, ends_weaken, ends_catch, ends_fail}
use sociomile.Gorm.{Gorm, IsEngine, unordered}
use sociomile.Gorm.Laws.{GormLaws, beside}
use sociomile.Gorm.Session.Rules.{
  Reads, reads_seq, Found, IsFault, IsMissed, IsMissed-reads, ends_transaction,
}
use mathlib.Core.Bool.{true≢false}
use sociomile.Repository.Tables
use sociomile.Repository.Filters.{user_in}
use sociomile.Repository.Store.{within_transaction, get_user_by_id_and_tenant}
use sociomile.Repository.Store.Rules.{IsShown, both_true, get-IsShown_reads}
use sociomile.Cache.{Client, bump_version}
use sociomile.Cache.Rules.{bump_version_reads}
use sociomile.Service.Conversation.{get_conversation}

-- How a call fails: the tables are untouched, and the engine or the transaction refused; or the
-- change stands, and the engine failed the reload.
abbrev pub Failed : (Db → Type 0) → (Error → Type 0) → Db → Error → Db → Type 0
Failed P F d e d' = ((d' ≡ d) × (IsFault e ⊎ F e)) ⊎ (P d' × IsEngine e)

pub not-true : (b : Bool) → not b ≡ true → b ≡ false
not-true b h = ground arith

pub not-false : (b : Bool) → not b ≡ false → b ≡ true
not-false b h = ground arith

-- A user of the tenant with the agent role.
pub record IsAgent (d : Db) (tenant_id agent_id : String) (agent : User) : Type 0 where
  pub listed : Member agent d.users
  pub same_id : agent.id ≡ agent_id
  pub of_tenant : agent.tenant_id ≡ tenant_id
  pub role : agent.role ≡ role_agent

pub Found-IsAgent :
    (d : Db) (tenant_id agent_id : String) (agent : User)
    → Found (unordered (user_in agent_id tenant_id)) d.users agent
    → not (agent.role == role_agent) ≡ false
    → IsAgent d tenant_id agent_id agent
Found-IsAgent d tenant_id agent_id agent found role = record {
  listed = found.0;
  same_id =
      (eq_iff _ _).0 (both_true (agent.id == agent_id) (agent.tenant_id == tenant_id) found.1).0;
  of_tenant =
      (eq_iff _ _).0 (both_true (agent.id == agent_id) (agent.tenant_id == tenant_id) found.1).1;
  role = (eq_iff _ _).0 (not-false _ role);
}

-- The lookup of a user of the tenant was answered with an error.
abbrev pub IsUnknown : {W : Type 0} → Gorm W → Db → String → String → Type 0
IsUnknown g d tenant_id user_id =
    (x : Error) × IsMissed g (unordered (λ u. u.id == user_id && u.tenant_id == tenant_id)) d.users
      x

-- A user of the tenant with another role than an agent.
pub record HasOtherRole (d : Db) (tenant_id user_id : String) : Type 0 where
  pub user : User
  pub listed : Member user d.users
  pub same_id : user.id ≡ user_id
  pub of_tenant : user.tenant_id ≡ tenant_id
  pub role : user.role ≢ "agent"

pub Found-HasOtherRole :
    (d : Db) (tenant_id user_id : String) (user : User)
    → Found (unordered (user_in user_id tenant_id)) d.users user
    → not (user.role == role_agent) ≡ true
    → HasOtherRole d tenant_id user_id
Found-HasOtherRole d tenant_id user_id user found role = record {
  user = user;
  listed = found.0;
  same_id = (eq_iff _ _).0 (both_true (user.id == user_id) (user.tenant_id == tenant_id) found.1).0;
  of_tenant =
      (eq_iff _ _).0 (both_true (user.id == user_id) (user.tenant_id == tenant_id) found.1).1;
  role = λ e. true≢false (sym ((eq_iff _ _).1 e) ∙ not-true _ role);
}

module _ {W : Type 0} (g : Gorm W) (laws : GormLaws g) (cache : Client W) (s : State W)
    (tenant_id : String) where
  module _ {A : Type 0} (tx : Exec W A) (id : A → String) (P : A → Db → Type 0)
      (F : Error → Type 0) where
    pub commit_ends :
        ((w : W) → Ends tx (beside s w) (λ a s'. P a s'.db) (λ e s'. F e))
        → Ends
            (within_transaction g tx >>= λ a. bump_version cache tenant_id "conversations" >>= λ u.
              get_conversation g tenant_id (id a))
            s
            (λ c s'. (a : A) × P a s'.db × IsShown s'.db tenant_id (id a) c)
            (λ e s'. Failed (λ d. (a : A) × P a d) F s.db e s'.db)
    unfolding within_transaction get_conversation
    commit_ends h =
        ends_seq _ _ (ends_transaction g laws s tx P F h)
          (λ a t p.
            reads_seq _ _ (bump_version_reads t cache tenant_id "conversations")
              (λ u w x.
                ends_weaken _ (get-IsShown_reads g laws (beside t w) tenant_id (id a)).reads
                  (λ c s' q. (
                    a,
                    subst (P a) (sym q.0) p,
                    subst (λ d. IsShown d tenant_id (id a) c) (sym q.0) q.1,
                  ))
                  (λ e s' q. inr ((a, subst (P a) (sym q.0) p), q.1.0)))
              (λ e w x. absurd x))
          (λ e s' p. inl p)

  -- The same where the end is another one that leaves the tables alone.
  module _ {A B : Type 0} (tx : Exec W A) (rest : A → Exec W B) (P : A → Db → Type 0)
      (F : Error → Type 0) where
    pub commit_then :
        ((w : W) → Ends tx (beside s w) (λ a s'. P a s'.db) (λ e s'. F e))
        → ((a : A) (t : State W)
            → Ends (rest a) t (λ b s'. s'.db ≡ t.db) (λ e s'. (s'.db ≡ t.db) × IsEngine e))
        → Ends
            (within_transaction g tx >>= rest)
            s
            (λ b s'. (a : A) × P a s'.db)
            (λ e s'. Failed (λ d. (a : A) × P a d) F s.db e s'.db)
    unfolding within_transaction
    commit_then h end =
        ends_seq _ _ (ends_transaction g laws s tx P F h)
          (λ a t p.
            ends_weaken _ (end a t) (λ b s' q. (a, subst (P a) (sym q) p))
              (λ e s' q. inr ((a, subst (P a) (sym q.0) p), q.1)))
          (λ e s' p. inl p)

  -- A user who is looked up, where any failure is one error.
  pub user_or :
      (user_id : String) (x : Error)
      → Reads
          (catch (get_user_by_id_and_tenant g user_id tenant_id) (λ e. fail x))
          s
          (Found (unordered (user_in user_id tenant_id)) s.db.users)
          (λ e. (e ≡ x) × IsUnknown g s.db tenant_id user_id)
  unfolding get_user_by_id_and_tenant
  user_or user_id x = record {
    reads =
        ends_catch _ _
          (IsMissed-reads g laws s Tables.users (unordered (user_in user_id tenant_id))).reads
          (λ u s' p. p) (λ e s' p. ends_fail x (p.0, (refl, (e, p.1))));
  }
