-- ===== src/Invariant/Reachable.antt =====
-- backend/internal/service: the calls that write, one after the other, as a step relation, and the
-- invariant that holds of every state that they reach.
use sociomile.Prelude.{inl, inr, subst⁻¹, trim_space}
use sociomile.Model.{Db}
use sociomile.Exec.{State}
use sociomile.Gorm.{Gorm}
use sociomile.Gorm.Laws.{GormLaws, beside}
use sociomile.Cache.{Client}
use sociomile.Service.Ticket.{normalized}
use sociomile.Service.Webhook.{trimmed}
use sociomile.Invariant.{IsWellFormed}
use sociomile.Invariant.Calls.{
  Request, receive, assign, reply, close, escalate, set_status, after, IsChange, after-IsChange,
}
use sociomile.Invariant.Effects.{
  replied_sound, assigned_sound, Closed-sound, status_sound, escalated_sound, received_sound,
}

-- The states that calls reach, in any order and number; between two of them the world may change.
pub data IsReachable {W : Type 0} (g : Gorm W) (cache : Client W) (start : State W)
    : State W → Type 0 where
  started : IsReachable g cache start start
  called :
      (s : State W) (r : Request)
      → IsReachable g cache start s
      → IsReachable g cache start (after g cache r s)
  drifted :
      (s : State W) (w : W) → IsReachable g cache start s → IsReachable g cache start (beside s w)

changed_sound : (r : Request) (d d' : Db) → IsWellFormed d → IsChange r d d' → IsWellFormed d'
changed_sound (receive input) d d' sound (id, c) = received_sound d d' (trimmed input) id sound c
changed_sound (assign tenant_id id actor_id actor_role agent_id) d d' sound (agent, c) =
    assigned_sound d d' tenant_id id sound agent.id c
changed_sound (reply tenant_id id agent_id message) d d' sound (agent, c) =
    replied_sound d d' tenant_id id agent.id (trim_space message) sound c
changed_sound (close tenant_id id actor_id actor_role) d d' sound c =
    Closed-sound d d' tenant_id id sound actor_id actor_role c
changed_sound (escalate tenant_id id agent_id input) d d' sound (agent, c) =
    escalated_sound d d' tenant_id id agent.id (normalized input) sound c
changed_sound (set_status tenant_id id actor_id actor_role status) d d' sound c =
    status_sound d d' tenant_id id sound (trim_space status) c

after_sound :
    {W : Type 0} (g : Gorm W) (laws : GormLaws g) (cache : Client W) (s : State W) (r : Request)
    → IsWellFormed s.db
    → IsWellFormed (after g cache r s).db
after_sound g laws cache s r sound = elim (after-IsChange g laws cache s r) [
  | inl same ↦ subst⁻¹ IsWellFormed same sound
  | inr c ↦ changed_sound r s.db (after g cache r s).db sound c
]

-- Tables that are well formed stay so through any calls that write, in any order, whether they
-- succeed or fail: identifiers stay unique, an open conversation has no agent and an assigned one
-- has one, no conversation gets two tickets, and each ticket is of a conversation of its tenant.
pub IsReachable-IsWellFormed :
    {W : Type 0} (g : Gorm W) (laws : GormLaws g) (cache : Client W) (start s : State W)
    → IsWellFormed start.db
    → IsReachable g cache start s
    → IsWellFormed s.db
IsReachable-IsWellFormed g laws cache start s sound started = sound
IsReachable-IsWellFormed g laws cache start _ sound (called s r reached) =
    after_sound g laws cache s r (IsReachable-IsWellFormed g laws cache start s sound reached)
IsReachable-IsWellFormed g laws cache start _ sound (drifted s w reached) =
    IsReachable-IsWellFormed g laws cache start s sound reached
