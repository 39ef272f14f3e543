-- ===== src/Invariant/Tables.antt =====
-- The changes of a table that keep the invariant: a conversation is rewritten or added, a ticket is
-- added or rewritten.
use mathlib.Core.Bool.{false≢true}
use sociomile.Prelude.{
  String, ◌≡◌, ◌≢◌, inl, inr, sym, ap, ◌∙◌, subst⁻¹, List, [], ◌∷◌, ◌++◌, Member, upsert, ◌==◌,
  eq_iff, Unique-append, Unique-upsert, Unique-upsert_column, Unique-Member, Member-upsert,
  Member-upsert_other, upsert-Member, Member-append, Member-append_left, Bool-cases,
}
use sociomile.Model.{Db, Conversation, Ticket}
use sociomile.Model.Schema
use sociomile.Model.Schema.{key}
use sociomile.Repository.Store.Rewrite.{IsRewritten}
use sociomile.Invariant.{IsCoherent, IsOwned, IsSound, IsWellFormed}

abbrev conversation_key : Conversation → String
conversation_key = key Schema.conversations

abbrev ticket_key : Ticket → String
ticket_key = key Schema.tickets

module _ (d : Db) (tenant_id id : String) (row stored : Conversation) (rows : List Conversation)
    (rewritten : IsRewritten d tenant_id id row stored rows) (sound : IsWellFormed d)
    (coherent : IsCoherent stored) where
  -- A ticket keeps its owner, which may be the row that is rewritten.
  IsOwned-upsert :
      (t : Ticket)
      → IsOwned d.conversations t
      → IsOwned (upsert conversation_key stored d.conversations) t
  IsOwned-upsert t (c, m, same, tenant) = elim (Bool-cases (c.id == stored.id)) [
    | inl this ↦
        let c_row : c ≡ row =
          Unique-Member conversation_key c row d.conversations sound.conversation_ids m
            rewritten.listed ((eq_iff _ _).0 this ∙ (rewritten.stored_id ∙ sym rewritten.row_id)) in
        (
          stored,
          upsert-Member conversation_key stored d.conversations,
          sym ((eq_iff _ _).0 this) ∙ same,
          rewritten.stored_tenant
              ∙ (sym rewritten.row_tenant
                  ∙ (sym (ap (λ (x : Conversation). x.tenant_id) c_row) ∙ tenant)),
        )
    | inr other ↦ (
      c,
      Member-upsert_other conversation_key stored c d.conversations m
          (λ e. false≢true (sym other ∙ (eq_iff _ _).1 e)),
      same,
      tenant,
    )
  ]

  upsert-IsCoherent :
      (c : Conversation) → Member c (upsert conversation_key stored d.conversations) → IsCoherent c
  upsert-IsCoherent c m =
      elim (Member-upsert conversation_key stored d.conversations c sound.conversation_ids m) [
        | inl e ↦ subst⁻¹ IsCoherent e coherent
        | inr (old, _) ↦ sound.coherent c old
      ]

  pub rewritten-IsSound : IsSound rows d.tickets
  rewritten-IsSound =
      subst⁻¹ (λ cs. IsSound cs d.tickets) rewritten.replaced
        (record {
          conversation_ids =
              Unique-upsert conversation_key stored d.conversations sound.conversation_ids;
          coherent = upsert-IsCoherent;
          ticket_ids = sound.ticket_ids;
          one_ticket = sound.one_ticket;
          owned = λ t m. IsOwned-upsert t (sound.owned t m);
        })

module _ (conversations : List Conversation) (tickets : List Ticket)
    (sound : IsSound conversations tickets) where
  appended-IsCoherent :
      (c : Conversation)
      → IsCoherent c
      → (x : Conversation) → Member x (conversations ++ c ∷ [])
      → IsCoherent x
  appended-IsCoherent c coherent x m = elim (Member-append x conversations (c ∷ []) m) [
    | inl old ↦ sound.coherent x old
    | inr new ↦ elim new [ inl e ↦ subst⁻¹ IsCoherent e coherent | inr none ↦ absurd none ]
  ]

  pub opened-IsSound :
      (c : Conversation)
      → IsCoherent c
      → ((x : Conversation) → Member x conversations → x.id ≢ c.id)
      → IsSound (conversations ++ c ∷ []) tickets
  opened-IsSound c coherent fresh = record {
    conversation_ids = Unique-append conversation_key conversations c sound.conversation_ids fresh;
    coherent = appended-IsCoherent c coherent;
    ticket_ids = sound.ticket_ids;
    one_ticket = sound.one_ticket;
    owned = λ t m.
        let (x, listed, same, tenant) = sound.owned t m in
        (x, Member-append_left x conversations (c ∷ []) listed, same, tenant);
  }

  appended-IsOwned :
      (t : Ticket)
      → IsOwned conversations t
      → (x : Ticket) → Member x (tickets ++ t ∷ [])
      → IsOwned conversations x
  appended-IsOwned t owned x m = elim (Member-append x tickets (t ∷ []) m) [
    | inl old ↦ sound.owned x old
    | inr new ↦ elim new [
      | inl e ↦ subst⁻¹ (IsOwned conversations) e owned
      | inr none ↦ absurd none
    ]
  ]

  pub ticket-IsSound :
      (t : Ticket)
      → IsOwned conversations t
      → ((x : Ticket) → Member x tickets → x.id ≢ t.id)
      → ((x : Ticket) → Member x tickets → x.conversation_id ≢ t.conversation_id)
      → IsSound conversations (tickets ++ t ∷ [])
  ticket-IsSound t owned fresh first = record {
    conversation_ids = sound.conversation_ids;
    coherent = sound.coherent;
    ticket_ids = Unique-append ticket_key tickets t sound.ticket_ids fresh;
    one_ticket = Unique-append (λ t. t.conversation_id) tickets t sound.one_ticket first;
    owned = appended-IsOwned t owned;
  }

  rewritten-IsOwned :
      (row stored : Ticket)
      → Member row tickets
      → stored.tenant_id ≡ row.tenant_id
      → stored.conversation_id ≡ row.conversation_id
      → (x : Ticket) → Member x (upsert ticket_key stored tickets)
      → IsOwned conversations x
  rewritten-IsOwned row stored listed tenant same x m =
      elim (Member-upsert ticket_key stored tickets x sound.ticket_ids m) [
        | inl e ↦
            let (c, here, owns, of_tenant) = sound.owned row listed in
            subst⁻¹ (IsOwned conversations) e (c, here, owns ∙ sym same, of_tenant ∙ sym tenant)
        | inr (old, _) ↦ sound.owned x old
      ]

  pub ticket_rewritten-IsSound :
      (row stored : Ticket)
      → Member row tickets
      → stored.id ≡ row.id
      → stored.tenant_id ≡ row.tenant_id
      → stored.conversation_id ≡ row.conversation_id
      → IsSound conversations (upsert ticket_key stored tickets)
  ticket_rewritten-IsSound row stored listed same_id tenant same = record {
    conversation_ids = sound.conversation_ids;
    coherent = sound.coherent;
    ticket_ids = Unique-upsert ticket_key stored tickets sound.ticket_ids;
    one_ticket =
        Unique-upsert_column ticket_key (λ t. t.conversation_id) stored row tickets sound.ticket_ids
          sound.one_ticket listed (sym same_id) (sym same);
    owned = rewritten-IsOwned row stored listed tenant same;
  }
