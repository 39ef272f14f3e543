-- ===== src/Invariant/Lifecycle.antt =====
-- The abstract life of a conversation, which the services of backend/internal/service implement.
pub mod Simulation
use sociomile.Prelude.{
  String, ◌≡◌, ◌≢◌, inl, inr, refl, sym, ◌∙◌, ap, subst, subst⁻¹, true, false, ◌==◌, eq_iff,
  Bool-cases, if◌then◌else◌,
}
use mathlib.Core.Bool.{false≢true, true≢false}
use sociomile.Model.{Conversation, conversation_status_assigned, conversation_status_closed}

-- A conversation waits for an agent, is an agent's, or is over.
pub data Phase : Type 0 where
  free : Phase
  held : Phase
  over : Phase

-- The steps of the abstract machine: an agent takes a conversation, any conversation is closed. None
-- goes back.
pub data IsStep : Phase → Phase → Type 0 where
  stays : (p : Phase) → IsStep p p
  taken : IsStep free held
  ended : (p : Phase) → IsStep p over

pub IsStep-trans : (p q r : Phase) → IsStep p q → IsStep q r → IsStep p r
IsStep-trans _ _ r (stays p) k = k
IsStep-trans _ _ _ taken (stays _) = taken
IsStep-trans _ _ _ taken (ended _) = ended free
IsStep-trans _ _ _ (ended p) (stays _) = ended p
IsStep-trans _ _ _ (ended p) (ended _) = ended p

-- The phase that the status of a conversation stands for.
abbrev pub phase_of : String → Phase
phase_of status =
    if status == conversation_status_closed
    then over
    else if status == conversation_status_assigned
    then held
    else free

abbrev pub phase : Conversation → Phase
phase c = phase_of c.status

-- A later row of the same conversation.
pub record Continues (c c' : Conversation) : Type 0 where
  pub same_id : c'.id ≡ c.id
  pub same_tenant : c'.tenant_id ≡ c.tenant_id
  pub same_customer : c'.customer_id ≡ c.customer_id
  pub same_channel : c'.channel_id ≡ c.channel_id
  pub step : IsStep (phase c) (phase c')

pub Continues-refl : (c : Conversation) → Continues c c
Continues-refl c = record {
  same_id = refl;
  same_tenant = refl;
  same_customer = refl;
  same_channel = refl;
  step = stays (phase c);
}

pub Continues-trans : (a b c : Conversation) → Continues a b → Continues b c → Continues a c
Continues-trans a b c h k = record {
  same_id = k.same_id ∙ h.same_id;
  same_tenant = k.same_tenant ∙ h.same_tenant;
  same_customer = k.same_customer ∙ h.same_customer;
  same_channel = k.same_channel ∙ h.same_channel;
  step = IsStep-trans (phase a) (phase b) (phase c) h.step k.step;
}

-- A conversation that is closed is over, whatever it was.
pub closed_step :
    (c c' : Conversation) → c'.status ≡ conversation_status_closed → IsStep (phase c) (phase c')
closed_step c c' e = subst⁻¹ (λ s. IsStep (phase c) (phase_of s)) e (ended (phase c))

pub same_step : (c c' : Conversation) → c'.status ≡ c.status → IsStep (phase c) (phase c')
same_step c c' e = subst⁻¹ (λ s. IsStep (phase c) (phase_of s)) e (stays (phase c))

pub assigned_step :
    (c c' : Conversation)
    → c.status ≢ conversation_status_closed
    → c'.status ≡ conversation_status_assigned
    → IsStep (phase c) (phase c')
assigned_step c c' was_open e =
    subst⁻¹ (λ s. IsStep (phase c) (phase_of s)) e
      (elim (Bool-cases (c.status == conversation_status_closed)) [
        | inl closed ↦ absurd (was_open ((eq_iff _ _).0 closed))
        | inr not_closed ↦ elim (Bool-cases (c.status == conversation_status_assigned)) [
          | inl same ↦ rw (not_closed, same) (stays held)
          | inr other ↦ rw (not_closed, other) taken
        ]
      ])
