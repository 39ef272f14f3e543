-- ===== src/Service/Conversation/Assign.antt =====
-- backend/internal/service/conversation_service.go: what `AssignConversation` does and refuses.
pub mod Effect
pub use Effect.{IsAssigned, AssignRefused}
use mathlib.Core.Bool.{true≢false}
use sociomile.Prelude.{
  String, ◌≡◌, ◌≢◌, refl, sym, ap, ◌∙◌, true, false, not, Option, none, some, List, [], ◌∷◌, Member,
  ◌==◌, eq_iff, subst, subst⁻¹, trim_space,
}
use sociomile.Apperror.{Error, fails}
use sociomile.Model.{
  Db, User, Conversation, role_admin, conversation_status_assigned, conversation_status_closed,
  fields_payload,
}
use sociomile.Model.Schema
use sociomile.Model.Schema.{foreign_key}
use sociomile.Exec.{ok, err, State}
use sociomile.Exec.Ends.{Ends, ends_guard, ends_weaken, ends_ok, ends_err}
use sociomile.Gorm.{Gorm, unordered}
use sociomile.Gorm.Laws.{GormLaws, IsSaved, beside}
use sociomile.Gorm.Session.Rules.{reads_seq, Loaded, Missing, IsFault, save_seq}
use sociomile.Repository.Tables
use sociomile.Repository.Filters.{conversation_in, user_in}
use sociomile.Repository.Store.{save_conversation}
use sociomile.Repository.Store.Rules.{both_true, IsShown, IsLoaded, get_conversation_reads}
use sociomile.Repository.Store.Rewrite.{IsRewritten, rewrite_saved, foreign_key-Loaded}
use sociomile.Cache.{Client}
use sociomile.Service.Events.Rules.{IsAppended, Appended, append_ends}
use sociomile.Service.Conversation.Commit.{
  Failed, IsAgent, Found-IsAgent, IsUnknown, HasOtherRole, Found-HasOtherRole, not-false, user_or,
  commit_ends,
}
use sociomile.Service.Conversation.Assignment.{loaded_row, loaded_status}
use sociomile.Service.Conversation.{assign_conversation_tx, assign_conversation}
use sociomile.Service.Conversation.Assign.Effect.{assign_tx_ends}

-- How an assignment fails.
pub data AssignFailed {W : Type 0} (g : Gorm W) (tenant_id id actor_id actor_role agent_id : String)
    (d d' : Db) (e : Error) : Type 0 where
  not_admin :
      actor_role ≢ role_admin
      → e ≡ fails 403 "forbidden" "only admins can assign conversations"
      → d' ≡ d
      → AssignFailed g tenant_id id actor_id actor_role agent_id d d' e
  no_actor :
      IsUnknown g d tenant_id actor_id
      → e ≡ fails 403 "forbidden" "admin user is not available in this tenant"
      → d' ≡ d
      → AssignFailed g tenant_id id actor_id actor_role agent_id d d' e
  blank :
      agent_id ≡ ""
      → e ≡ fails 400 "invalid_assignment" "agent_id is required"
      → d' ≡ d
      → AssignFailed g tenant_id id actor_id actor_role agent_id d d' e
  no_agent :
      IsUnknown g d tenant_id agent_id
      → e ≡ fails 400 "invalid_assignment" "agent does not exist in this tenant"
      → d' ≡ d
      → AssignFailed g tenant_id id actor_id actor_role agent_id d d' e
  wrong_role :
      HasOtherRole d tenant_id agent_id
      → e ≡ fails 400 "invalid_assignment" "target user must have the agent role"
      → d' ≡ d
      → AssignFailed g tenant_id id actor_id actor_role agent_id d d' e
  stopped :
      (agent : User)
      → IsAgent d tenant_id agent_id agent
      → Failed
          (λ d'. (u : Unit {0}) × IsAssigned tenant_id id agent.id d d')
          (AssignRefused tenant_id id d)
          d
          e
          d'
      → AssignFailed g tenant_id id actor_id actor_role agent_id d d' e

-- What an assignment has done, when it returns `c`.
pub record Assigned (tenant_id id actor_id actor_role agent_id : String) (d d' : Db)
    (c : Conversation) : Type 0 where
  pub by_admin : actor_role ≡ role_admin
  pub actor : User
  pub actor_listed : Member actor d.users
  pub actor_same : actor.id ≡ actor_id
  pub actor_tenant : actor.tenant_id ≡ tenant_id
  pub agent : User
  pub is_agent : IsAgent d tenant_id agent_id agent
  pub is_assigned : IsAssigned tenant_id id agent.id d d'
  pub reloaded : IsShown d' tenant_id id c

module _ {W : Type 0} (g : Gorm W) (laws : GormLaws g) (cache : Client W)
    (tenant_id id actor_id actor_role agent_id : String) (s : State W) where
  assign_ends :
      Ends
        (assign_conversation g cache tenant_id id actor_id actor_role agent_id)
        s
        (λ c s'. Assigned tenant_id id actor_id actor_role (trim_space agent_id) s.db s'.db c)
        (λ e s'. AssignFailed g tenant_id id actor_id actor_role (trim_space agent_id) s.db s'.db e)
  unfolding assign_conversation
  assign_ends =
      ends_guard _ _ _
        (λ other. not_admin (λ e. true≢false (sym other ∙ ap not ((eq_iff _ _).1 e))) refl refl)
        (λ admin.
          reads_seq _ _ (user_or g laws cache s tenant_id actor_id _)
            (λ actor w actor_found.
              ends_guard _ _ _ (λ empty. blank ((eq_iff _ _).0 empty) refl refl)
                (λ present.
                  reads_seq _ _
                    (user_or g laws cache (beside s w) tenant_id (trim_space agent_id) _)
                    (λ agent w found.
                      ends_guard _ _ _
                        (λ other.
                          wrong_role (Found-HasOtherRole s.db tenant_id _ agent found other) refl
                            refl)
                        (λ role.
                          let is_agent =
                            Found-IsAgent s.db tenant_id (trim_space agent_id) agent found role in
                          ends_weaken _
                            (commit_ends g laws cache (beside s w) tenant_id _ (λ u. id)
                              (λ u d'. IsAssigned tenant_id id agent.id s.db d')
                              (AssignRefused tenant_id id s.db)
                              (λ w'. assign_tx_ends g laws tenant_id id agent (beside s w')))
                            (λ c s' p. record {
                              by_admin = (eq_iff _ _).0 (not-false _ admin);
                              actor = actor;
                              actor_listed = actor_found.0;
                              actor_same =
                                  (eq_iff _ _).0
                                    (both_true (actor.id == actor_id) _ actor_found.1).0;
                              actor_tenant =
                                  (eq_iff _ _).0
                                    (both_true (actor.id == actor_id) _ actor_found.1).1;
                              agent = agent;
                              is_agent = is_agent;
                              is_assigned = p.1;
                              reloaded = p.2;
                            })
                            (λ e s' p. stopped agent is_agent p)))
                    (λ e w p. no_agent p.1 p.0 refl)))
            (λ e w p. no_actor p.1 p.0 refl))

  -- An assignment that succeeds is by an admin of the tenant to an agent of the tenant, of a
  -- conversation that is not closed. The conversation is stored as assigned, to that agent if it
  -- was free, and to the user it had if that user exists; one event is added, which names the user
  -- that was stored; nothing else changes, and the conversation is returned as it stands.
  pub assign_conversation_ok :
      (c : Conversation) (s' : State W)
      → assign_conversation g cache tenant_id id actor_id actor_role agent_id s ≡ (ok c, s')
      → Assigned tenant_id id actor_id actor_role (trim_space agent_id) s.db s'.db c
  assign_conversation_ok c s' e = ends_ok assign_ends c s' e

  -- An assignment that fails has changed no table, and each error of its own has its reason (a
  -- query for the admin or for the agent that was answered with an error, another role), unless
  -- the assignment stands and the engine failed the reload after the commit.
  pub assign_conversation_err :
      (e : Error) (s' : State W)
      → assign_conversation g cache tenant_id id actor_id actor_role agent_id s ≡ (err e, s')
      → AssignFailed g tenant_id id actor_id actor_role (trim_space agent_id) s.db s'.db e
  assign_conversation_err e s' h = ends_err assign_ends e s' h
