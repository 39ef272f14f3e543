-- ===== src/Service/Webhook/Received.antt =====
-- backend/internal/service/conversation_service.go: what `HandleWebhook` does and refuses.
use sociomile.Prelude.{
  String, ◌≡◌, ◌≢◌, ◌⊎◌, inl, inr, refl, true, false, arith, eq_iff, ◌==◌, Bool-cases,
}
use sociomile.Apperror.{Error, fails}
use sociomile.Model.{Db, Conversation}
use sociomile.Exec.{ok, err, State}
use sociomile.Exec.Ends.{Ends, ends_guard, ends_weaken, ends_ok, ends_err}
use sociomile.Gorm.{Gorm}
use sociomile.Gorm.Laws.{GormLaws, beside}
use sociomile.Repository.Store.Rules.{IsShown}
use sociomile.Cache.{Client}
use sociomile.Service.Conversation.Commit.{Failed, commit_ends}
use sociomile.Service.Webhook.{WebhookInput, trimmed, is_incomplete, handle_webhook}
use sociomile.Service.Webhook.Effect.{IsReceived, WebhookRefused}
use sociomile.Service.Webhook.Transaction.{handle_webhook_tx_ends}

-- What a webhook has done, when it returns `c`.
pub record Received (input : WebhookInput) (d d' : Db) (c : Conversation) : Type 0 where
  pub has_tenant : input.tenant_id ≢ ""
  pub has_channel : input.channel_key ≢ ""
  pub has_customer : input.customer_external_id ≢ ""
  pub has_message : input.message ≢ ""
  pub id : String
  pub is_received : IsReceived input id d d'
  pub reloaded : IsShown d' input.tenant_id id c

-- How a webhook fails.
pub data WebhookFailed {W : Type 0} (g : Gorm W) (input : WebhookInput) (d d' : Db) (e : Error)
    : Type 0 where
  incomplete :
      (input.tenant_id ≡ "")
        ⊎ ((input.channel_key ≡ "") ⊎ ((input.customer_external_id ≡ "") ⊎ (input.message ≡ "")))
      → e
        ≡ fails 400 "invalid_webhook"
            "tenant_id, channel_key, customer_external_id, and message are required"
      → d' ≡ d
      → WebhookFailed g input d d' e
  stopped :
      Failed (λ d'. (id : String) × IsReceived input id d d') (WebhookRefused g input d) d e d'
      → WebhookFailed g input d d' e

given :
    (input : WebhookInput)
    → is_incomplete input ≡ false
    → (input.tenant_id ≢ "")
      × (input.channel_key ≢ "")
      × (input.customer_external_id ≢ "")
      × (input.message ≢ "")
given input h = (
  λ e. ground (arith, eq_iff input.tenant_id ""),
  λ e. ground (arith, eq_iff input.channel_key ""),
  λ e. ground (arith, eq_iff input.customer_external_id ""),
  λ e. ground (arith, eq_iff input.message ""),
)

missing_text :
    (input : WebhookInput)
    → is_incomplete input ≡ true
    → (input.tenant_id ≡ "")
      ⊎ ((input.channel_key ≡ "") ⊎ ((input.customer_external_id ≡ "") ⊎ (input.message ≡ "")))
missing_text input h = elim (Bool-cases (input.tenant_id == "")) [
  | inl a ↦ inl ((eq_iff _ _).0 a)
  | inr a ↦ elim (Bool-cases (input.channel_key == "")) [
    | inl b ↦ inr (inl ((eq_iff _ _).0 b))
    | inr b ↦ elim (Bool-cases (input.customer_external_id == "")) [
      | inl c ↦ inr (inr (inl ((eq_iff _ _).0 c)))
      | inr c ↦ inr (inr (inr (ground (arith, eq_iff input.message ""))))
    ]
  ]
]

module _ {W : Type 0} (g : Gorm W) (laws : GormLaws g) (cache : Client W) (raw : WebhookInput)
    (s : State W) where
  handle_webhook_ends :
      Ends
        (handle_webhook g cache raw)
        s
        (λ c s'. Received (trimmed raw) s.db s'.db c)
        (λ e s'. WebhookFailed g (trimmed raw) s.db s'.db e)
  unfolding handle_webhook
  handle_webhook_ends =
      ends_guard _ _ _ (λ missing. incomplete (missing_text (trimmed raw) missing) refl refl)
        (λ complete.
          ends_weaken _
            (commit_ends g laws cache s (trimmed raw).tenant_id _ (λ id. id)
              (λ id d'. IsReceived (trimmed raw) id s.db d') (WebhookRefused g (trimmed raw) s.db)
              (λ w. handle_webhook_tx_ends g laws (beside s w) (trimmed raw)))
            (λ c s' p.
              let (a, b, c, d) = given (trimmed raw) complete in
              record {
                has_tenant = a;
                has_channel = b;
                has_customer = c;
                has_message = d;
                id = p.0;
                is_received = p.1;
                reloaded = p.2;
              })
            (λ e s' p. stopped p))

  -- A webhook that succeeds has the four texts that are required, once trimmed, and names a tenant
  -- and a channel of it. Its customer is found, renamed or added. One message of the customer is
  -- added, to the open or assigned conversation of that customer and channel that was updated last,
  -- whose status and agent stay, or, only if there is none, to one new open conversation of nobody.
  -- The events are appended in order, nothing else changes, and the conversation is returned as it
  -- stands, with its messages in order and its ticket if it has one.
  pub handle_webhook_ok :
      (c : Conversation) (s' : State W)
      → handle_webhook g cache raw s ≡ (ok c, s')
      → Received (trimmed raw) s.db s'.db c
  handle_webhook_ok c s' e = ends_ok handle_webhook_ends c s' e

  -- A webhook that fails has changed no table: a required text is blank (400), the query for the
  -- tenant was answered with an error (404), the tenant has no such channel (400), or the engine
  -- failed; or the message stands and the engine failed the reload after the commit.
  pub handle_webhook_err :
      (e : Error) (s' : State W)
      → handle_webhook g cache raw s ≡ (err e, s')
      → WebhookFailed g (trimmed raw) s.db s'.db e
  handle_webhook_err e s' h = ends_err handle_webhook_ends e s' h
