-- ===== src/Service/Ticket/Status.antt =====
-- backend/internal/service/ticket_service.go: what `UpdateStatus` does and refuses.
use mathlib.Core.Bool.{true≢false}
use sociomile.Prelude.{
  String, ◌≡◌, ◌≢◌, refl, sym, ap, ◌∙◌, true, not, Option, none, List, [], ◌∷◌, Member, upsert,
  eq_iff, arith, Bool-cases, ◌==◌, ◌⊎◌, inl, inr, subst, subst⁻¹, trim_space,
}
use sociomile.Apperror.{Error, fails}
use sociomile.Model.{Db, User, Ticket, role_admin, fields_payload}
use sociomile.Model.Schema
use sociomile.Model.Schema.{key, foreign_key}
use sociomile.Exec.{ok, err, State, ◌>>=◌}
use sociomile.Exec.Ends.{Ends, ends_guard, ends_weaken, ends_ok, ends_err}
use sociomile.Gorm.{Gorm, IsEngine, unordered}
use sociomile.Gorm.Laws.{GormLaws, IsSaved, beside}
use sociomile.Gorm.Session.Rules.{reads_seq, Loaded, Missing, IsFault, save_seq}
use sociomile.Repository.Tables
use sociomile.Repository.Filters.{ticket_in}
use sociomile.Repository.Store.{save_ticket}
use sociomile.Repository.Store.Rules.{both_true, get_ticket_reads}
use sociomile.Repository.Store.Rewrite.{foreign_key-Loaded}
use sociomile.Cache.{Client, bump_version}
use sociomile.Cache.Rules.{bump_version_reads}
use sociomile.Service.Events.Rules.{IsAppended, Appended, append_ends}
use sociomile.Service.Conversation.Commit.{
  Failed, IsUnknown, not-false, not-true, user_or, commit_then,
}
use sociomile.Service.Ticket.{is_valid_ticket_status, get_ticket, update_status_tx, update_status}

-- The four statuses.
abbrev pub IsStatus : String → Type 0
IsStatus x = (x ≡ "open") ⊎ ((x ≡ "in_progress") ⊎ ((x ≡ "resolved") ⊎ (x ≡ "closed")))

valid-IsStatus : (x : String) → is_valid_ticket_status x ≡ true → IsStatus x
unfolding is_valid_ticket_status
valid-IsStatus x h = elim (Bool-cases (x == "open")) [
  | inl a ↦ inl ((eq_iff _ _).0 a)
  | inr a ↦ elim (Bool-cases (x == "in_progress")) [
    | inl b ↦ inr (inl ((eq_iff _ _).0 b))
    | inr b ↦ elim (Bool-cases (x == "resolved")) [
      | inl c ↦ inr (inr (inl ((eq_iff _ _).0 c)))
      | inr c ↦ inr (inr (inr (ground (arith, eq_iff x "closed"))))
    ]
  ]
]

known_status : (x : String) → IsStatus x → is_valid_ticket_status x ≡ true
unfolding is_valid_ticket_status
known_status x (inl e) = (let a = (eq_iff _ _).1 e in ground arith)
known_status x (inr (inl e)) = (let a = (eq_iff _ _).1 e in ground arith)
known_status x (inr (inr (inl e))) = (let a = (eq_iff _ _).1 e in ground arith)
known_status x (inr (inr (inr e))) = (let a = (eq_iff _ _).1 e in ground arith)

-- The tables before and after the status of a ticket is set.
pub record IsStatusSet (tenant_id id status : String) (d d' : Db) : Type 0 where
  pub row : Ticket
  pub listed : Member row d.tickets
  pub asked_for : ticket_in tenant_id id row ≡ true
  pub row_tenant : row.tenant_id ≡ tenant_id
  pub row_id : row.id ≡ id
  pub stored : Ticket
  pub replaced : d'.tickets ≡ upsert (key Schema.tickets) stored d.tickets
  pub stored_id : stored.id ≡ row.id
  pub stored_tenant : stored.tenant_id ≡ row.tenant_id
  pub stored_conversation : stored.conversation_id ≡ row.conversation_id
  pub stored_created : stored.created_at ≡ row.created_at
  pub stored_title : stored.title ≡ row.title
  pub stored_description : stored.description ≡ row.description
  pub stored_priority : stored.priority ≡ row.priority
  pub stored_assignee : stored.assigned_agent_id ≡ row.assigned_agent_id
  pub stored_status : stored.status ≡ status
  pub event :
      IsAppended tenant_id "ticket.status.updated" "ticket" row.id
        (fields_payload (("ticket_id", row.id) ∷ ("status", status) ∷ []))
        d.activity_logs
        d'.activity_logs
        d.outbox_events
        d'.outbox_events
  pub frame : d' ≡ record d {
    tickets = d'.tickets;
    activity_logs = d'.activity_logs;
    outbox_events = d'.outbox_events;
  }

module _ (d : Db) (tenant_id id status : String) (row : Ticket) (agent : Option User)
    (saved : Ticket) (rows : List Ticket) (d' : Db) where
  is_status_set :
      Member row d.tickets
      → ticket_in tenant_id id row ≡ true
      → Loaded (λ u. u.id) row.assigned_agent_id d.users agent
      → IsSaved Schema.tickets
          (record row { assigned_agent = agent; status = status })
          d.tickets
          saved
          rows
      → Appended tenant_id "ticket.status.updated" "ticket" saved.id
          (fields_payload (("ticket_id", saved.id) ∷ ("status", saved.status) ∷ []))
          (record d { tickets = rows })
          d'
      → IsStatusSet tenant_id id status d d'
  is_status_set listed asked_for loaded kept appended =
      subst⁻¹ (IsStatusSet tenant_id id status d) appended.frame (record {
        row = row;
        listed = listed;
        asked_for = asked_for;
        row_tenant = (eq_iff _ _).0 (both_true _ _ asked_for).0;
        row_id = (eq_iff _ _).0 (both_true _ _ asked_for).1;
        stored = record saved { assigned_agent = none };
        replaced = kept.replaced;
        stored_id = ap (λ (x : Ticket). x.id) kept.filled;
        stored_tenant = ap (λ (x : Ticket). x.tenant_id) kept.filled;
        stored_conversation = ap (λ (x : Ticket). x.conversation_id) kept.filled;
        stored_created = ap (λ (x : Ticket). x.created_at) kept.filled;
        stored_title = ap (λ (x : Ticket). x.title) kept.filled;
        stored_description = ap (λ (x : Ticket). x.description) kept.filled;
        stored_priority = ap (λ (x : Ticket). x.priority) kept.filled;
        stored_assignee =
            ap (λ (x : Ticket). x.assigned_agent_id) kept.filled
            ∙ (foreign_key-Loaded (λ u. u.id) row.assigned_agent_id d.users agent loaded _).1 refl;
        stored_status = ap (λ (x : Ticket). x.status) kept.filled;
        event =
            subst
              (λ (x : Ticket).
                IsAppended tenant_id "ticket.status.updated" "ticket" x.id
                  (fields_payload (("ticket_id", x.id) ∷ ("status", x.status) ∷ [])) d.activity_logs
                  appended.logs d.outbox_events appended.events)
              kept.filled appended.rows;
        frame = refl;
      })

abbrev StatusRefused : String → String → Db → Error → Type 0
StatusRefused tenant_id id d e = Missing (unordered (ticket_in tenant_id id)) d.tickets e

fault : (tenant_id id : String) (d : Db) (e : Error) → IsFault e → StatusRefused tenant_id id d e
fault tenant_id id d e f = (f.0, λ n. absurd (f.1 n))

module _ {W : Type 0} (g : Gorm W) (laws : GormLaws g) (tenant_id id status : String)
    (s : State W) where
  update_status_tx_ends :
      Ends
        (update_status_tx g tenant_id id status)
        s
        (λ u s'. IsStatusSet tenant_id id status s.db s'.db)
        (λ e s'. StatusRefused tenant_id id s.db e)
  unfolding update_status_tx save_ticket
  update_status_tx_ends =
      reads_seq _ _ (get_ticket_reads g laws s tenant_id id)
        (λ t w found.
          save_seq g laws (beside s w) Tables.tickets Schema.tickets _ _
            (λ saved rows w kept.
              ends_weaken _ (append_ends g laws _ tenant_id _ _ _ _)
                (λ u s' appended.
                  is_status_set s.db tenant_id id status found.0 found.2.agent saved rows s'.db
                    found.1.0 found.1.1 found.2.agent_loaded
                    (subst
                      (λ (x : Ticket).
                        IsSaved Schema.tickets (record x { status = status }) s.db.tickets saved
                          rows)
                      found.2.fields kept)
                    appended)
                (λ e s' f. fault tenant_id id s.db e f))
            (λ e w f. fault tenant_id id s.db e f))
        (λ e w missing. missing)

-- How a change of status fails.
pub data StatusFailed {W : Type 0} (g : Gorm W) (tenant_id id actor_id actor_role status : String)
    (d d' : Db) (e : Error) : Type 0 where
  not_admin :
      actor_role ≢ role_admin
      → e ≡ fails 403 "forbidden" "only admins can update ticket status"
      → d' ≡ d
      → StatusFailed g tenant_id id actor_id actor_role status d d' e
  no_actor :
      IsUnknown g d tenant_id actor_id
      → e ≡ fails 403 "forbidden" "admin user is not available in this tenant"
      → d' ≡ d
      → StatusFailed g tenant_id id actor_id actor_role status d d' e
  bad_status :
      ¬ IsStatus status
      → e ≡ fails 400 "invalid_status" "invalid ticket status"
      → d' ≡ d
      → StatusFailed g tenant_id id actor_id actor_role status d d' e
  stopped :
      Failed
        (λ d'. (u : Unit {0}) × IsStatusSet tenant_id id status d d')
        (Missing (unordered (ticket_in tenant_id id)) d.tickets)
        d
        e
        d'
      → StatusFailed g tenant_id id actor_id actor_role status d d' e

-- What a change of status has done.
pub record StatusSet (tenant_id id actor_id actor_role status : String) (d d' : Db) : Type 0 where
  pub by_admin : actor_role ≡ role_admin
  pub actor : User
  pub actor_listed : Member actor d.users
  pub actor_same : actor.id ≡ actor_id
  pub actor_tenant : actor.tenant_id ≡ tenant_id
  pub valid : IsStatus status
  pub is_set : IsStatusSet tenant_id id status d d'

module _ {W : Type 0} (g : Gorm W) (laws : GormLaws g) (cache : Client W)
    (tenant_id id actor_id actor_role status : String) where
  reload_ends :
      (u : Unit {0}) (t : State W)
      → Ends
          (bump_version cache tenant_id "tickets" >>= λ u. get_ticket g tenant_id id)
          t
          (λ b s'. s'.db ≡ t.db)
          (λ e s'. (s'.db ≡ t.db) × IsEngine e)
  unfolding get_ticket
  reload_ends u t =
      reads_seq _ _ (bump_version_reads t cache tenant_id "tickets")
        (λ u w x.
          ends_weaken _ (get_ticket_reads g laws (beside t w) tenant_id id).reads (λ b s' p. p.0)
            (λ e s' p. (p.0, p.1.0)))
        (λ e w x. absurd x)

  update_status_ends :
      (s : State W)
      → Ends
          (update_status g cache tenant_id id actor_id actor_role status)
          s
          (λ t s'. StatusSet tenant_id id actor_id actor_role (trim_space status) s.db s'.db)
          (λ e s'. StatusFailed g tenant_id id actor_id actor_role (trim_space status) s.db s'.db e)
  unfolding update_status
  update_status_ends s =
      ends_guard _ _ _
        (λ other. not_admin (λ e. true≢false (sym other ∙ ap not ((eq_iff _ _).1 e))) refl refl)
        (λ admin.
          reads_seq _ _ (user_or g laws cache s tenant_id actor_id _)
            (λ actor w found.
              ends_guard _ _ _
                (λ bad.
                  bad_status (λ p. true≢false (sym (known_status _ p) ∙ not-true _ bad)) refl refl)
                (λ valid.
                  ends_weaken _
                    (commit_then g laws cache (beside s w) tenant_id _ _
                      (λ u d'. IsStatusSet tenant_id id (trim_space status) s.db d')
                      (StatusRefused tenant_id id s.db)
                      (λ w'. update_status_tx_ends g laws tenant_id id _ (beside s w')) reload_ends)
                    (λ t s' p. record {
                      by_admin = (eq_iff _ _).0 (not-false _ admin);
                      actor = actor;
                      actor_listed = found.0;
                      actor_same = (eq_iff _ _).0 (both_true (actor.id == actor_id) _ found.1).0;
                      actor_tenant = (eq_iff _ _).0 (both_true (actor.id == actor_id) _ found.1).1;
                      valid = valid-IsStatus _ (not-false _ valid);
                      is_set = p.1;
                    })
                    (λ e s' p. stopped p)))
            (λ e w p. no_actor p.1 p.0 refl))

  -- A change of status that succeeds is by an admin of the tenant, to one of the four statuses, of
  -- a ticket of the tenant. The stored ticket has that status and the other columns of its row but
  -- the time of the update, one event is added, and nothing else changes.
  pub update_status_ok :
      (s : State W) (t : Ticket) (s' : State W)
      → update_status g cache tenant_id id actor_id actor_role status s ≡ (ok t, s')
      → StatusSet tenant_id id actor_id actor_role (trim_space status) s.db s'.db
  update_status_ok s t s' e = ends_ok (update_status_ends s) t s' e

  -- A change of status that fails has changed no table, and each error of its own has its reason
  -- (403: another role, or a query for the admin that was answered with an error),
  -- unless the change stands and the engine failed the reload after the commit.
  pub update_status_err :
      (s : State W) (e : Error) (s' : State W)
      → update_status g cache tenant_id id actor_id actor_role status s ≡ (err e, s')
      → StatusFailed g tenant_id id actor_id actor_role (trim_space status) s.db s'.db e
  update_status_err s e s' h = ends_err (update_status_ends s) e s' h
