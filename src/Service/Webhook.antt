-- ===== src/Service/Webhook.antt =====
-- The webhook of backend/internal/service/conversation_service.go, over a GORM handle and a cache client. The
-- body of each transaction is a definition of its own, named after its method with `_tx`.
pub mod Effect
pub mod Target
pub mod Transaction
pub mod Received
pub mod Limit
use sociomile.Prelude.{
  ℕ, String, Bool, true, false, not, ◌||◌, none, [], ◌∷◌, ◌==◌, trim_space, if◌then◌else◌,
}
use sociomile.Apperror.{fails}
use sociomile.Model.{
  Conversation, unsaved, conversation_status_open, sender_type_customer, conversation_payload,
  message_payload,
}
use sociomile.Exec.{Exec, pure, fail, ◌>>=◌, ◌>>◌, fail_if, catch}
use sociomile.Gorm.{Gorm}
use sociomile.Gorm.Session.{now}
use sociomile.Repository.Filters.{is_not_found}
use sociomile.Repository.Store.{
  within_transaction, get_tenant, get_channel_by_key, get_or_create_customer,
  find_active_conversation, create_conversation, save_conversation, create_message,
}
use sociomile.Cache.{Client, key, bump_version, check_rate_limit}
use sociomile.Service.Events.{append_domain_event}
use sociomile.Service.Conversation.{get_conversation}

-- `WebhookInput`
pub record WebhookInput : Type 0 where
  pub tenant_id : String
  pub channel_key : String
  pub customer_external_id : String
  pub customer_name : String
  pub message : String

-- A minute, in nanoseconds.
abbrev pub minute : ℕ
minute = 60_000_000_000

-- `strings.TrimSpace` of every field of the input
unfoldable pub trimmed : WebhookInput → WebhookInput
trimmed input = record {
  tenant_id = trim_space input.tenant_id;
  channel_key = trim_space input.channel_key;
  customer_external_id = trim_space input.customer_external_id;
  customer_name = trim_space input.customer_name;
  message = trim_space input.message;
}

-- The key of the counter of a webhook's caller.
unfoldable pub rate_key : String → String → String
rate_key tenant_id ip_address = key ("tenant" ∷ tenant_id ∷ "webhook" ∷ "rate" ∷ ip_address ∷ [])

abbrev pub is_incomplete : WebhookInput → Bool
is_incomplete input =
    input.tenant_id == ""
    || (input.channel_key == "" || (input.customer_external_id == "" || input.message == ""))

module _ {W : Type 0} (cache : Client W) where
  -- `AllowWebhook`: an error of the limiter lets the call through
  unfoldable pub allow_webhook : String → String → Exec W (Unit {0})
  allow_webhook tenant_id ip_address = do
    fail_if (tenant_id == "") (fails 400 "invalid_tenant" "tenant_id is required")
    allowed ←
        catch (check_rate_limit cache (rate_key tenant_id ip_address) 30 minute) (λ e. pure true)
    fail_if (not allowed) (fails 429 "rate_limited" "webhook rate limit exceeded")

module _ {W : Type 0} (g : Gorm W) where
  -- The conversation that a message goes to, and whether it is new.
  unfoldable pub active_or_new : String → String → String → Exec W (Conversation × Bool)
  active_or_new tenant_id customer_id channel_id =
      catch (find_active_conversation g tenant_id customer_id channel_id >>= λ c. pure (c, false))
        (λ e.
          if not (is_not_found e)
          then fail e
          else (create_conversation g (record {
            base = unsaved;
            tenant_id = tenant_id;
            customer_id = customer_id;
            channel_id = channel_id;
            status = conversation_status_open;
            assigned_agent_id = none;
            customer = none;
            channel = none;
            assigned_agent = none;
            messages = [];
            ticket = none;
          })
              >>= λ c. pure (c, true)))

  unfoldable pub created_event : String → Conversation → Bool → Exec W (Unit {0})
  created_event tenant_id c true =
      append_domain_event g tenant_id "conversation.created" "conversation" c.id
        (conversation_payload c)
  created_event tenant_id c false = pure tt

  -- The transaction of `HandleWebhook`, on the trimmed input
  unfoldable pub handle_webhook_tx : WebhookInput → Exec W String
  handle_webhook_tx input = do
    tenant ←
        catch (get_tenant g input.tenant_id)
          (λ e. fail (fails 404 "tenant_not_found" "tenant not found"))
    channel ← catch (get_channel_by_key g input.tenant_id input.channel_key) (λ e.
        if is_not_found e
        then fail (fails 400 "invalid_channel" "channel_key is not configured for the tenant")
        else fail e)
    customer ←
        get_or_create_customer g input.tenant_id input.customer_external_id input.customer_name
    target ← active_or_new input.tenant_id customer.id channel.id
    message ← create_message g (record {
      base = unsaved;
      conversation_id = target.0.id;
      sender_type = sender_type_customer;
      sender_id = none;
      message = input.message;
    })
    time ← now g
    conversation ←
        save_conversation g (record target.0 { base = record target.0.base { updated_at = time } })
    created_event input.tenant_id conversation target.1
    append_domain_event g input.tenant_id "channel.message.received" "conversation" conversation.id
        (message_payload message)
    pure conversation.id

module _ {W : Type 0} (g : Gorm W) (cache : Client W) where
  -- `HandleWebhook`
  unfoldable pub handle_webhook : WebhookInput → Exec W Conversation
  handle_webhook raw = do
    let input = trimmed raw
    fail_if (is_incomplete input) (
        fails 400 "invalid_webhook"
          "tenant_id, channel_key, customer_external_id, and message are required")
    conversation_id ← within_transaction g (handle_webhook_tx g input)
    bump_version cache input.tenant_id "conversations"
    get_conversation g input.tenant_id conversation_id
