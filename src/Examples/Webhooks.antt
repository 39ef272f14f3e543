-- ===== src/Examples/Webhooks.antt =====
-- The theorems about the webhook, applied to runs of the engine in memory.
use sociomile.Prelude.{ℕ, none, trim_space}
use sociomile.Apperror.{new}
use sociomile.Model.{Conversation, before_create}
use sociomile.Exec.{Result, State, pure, fail, ◌>>=◌, fail_if, catch, outside}
use sociomile.Gorm.Session.{first, find, preload, create, save, now}
use sociomile.Repository.Store.{
  within_transaction, get_tenant, get_channel_by_key, find_customer, rename_customer,
  create_customer, get_or_create_customer, find_active_conversation, create_conversation,
  preload_conversation, find_ticket_by_conversation, preload_ticket, ticket_or_none,
  get_conversation_by_id, save_conversation, create_message, create_activity_log,
  create_outbox_event,
}
use sociomile.Cache.{bump_version}
use sociomile.Service.Events.{append_domain_event}
use sociomile.Service.Conversation.{get_conversation}
use sociomile.Service.Webhook.{
  WebhookInput, trimmed, active_or_new, created_event, handle_webhook_tx, handle_webhook,
}
use sociomile.Service.Webhook.Received.{
  Received, WebhookFailed, handle_webhook_ok, handle_webhook_err,
}
use sociomile.Examples.Engine.{engine}
use sociomile.Examples.Engine.Laws.{engine_laws}
use sociomile.Examples.Data.{free, shut, conversation, value_or, error_of, returned, refused}

-- A message of the customer who is there, under a new name.
abbrev input : WebhookInput
input = record {
  tenant_id = " t";
  channel_key = "web";
  customer_external_id = "x";
  customer_name = "Bea";
  message = "help";
}

abbrev bad_input : WebhookInput
bad_input = record input { channel_key = "mail" }

abbrev received_run : Result Conversation × State ℕ
received_run = handle_webhook engine none input shut

handle_webhook_ok_example :
    Received
      (trimmed input)
      shut.db
      received_run.1.db
      (value_or (conversation "" none) received_run.0)
unfolding handle_webhook trimmed active_or_new created_event handle_webhook_tx get_conversation
    append_domain_event bump_version within_transaction get_tenant get_channel_by_key find_customer
    rename_customer create_customer get_or_create_customer find_active_conversation
    create_conversation preload_conversation find_ticket_by_conversation preload_ticket
    ticket_or_none get_conversation_by_id save_conversation create_message create_activity_log
    create_outbox_event first find preload create save now pure fail ◌>>=◌ fail_if catch outside
    trim_space new before_create
handle_webhook_ok_example =
    handle_webhook_ok engine engine_laws none input shut
      (value_or (conversation "" none) received_run.0) received_run.1
      (returned (conversation "" none) received_run tt)

abbrev failed_run : Result Conversation × State ℕ
failed_run = handle_webhook engine none bad_input free

handle_webhook_err_example :
    WebhookFailed engine (trimmed bad_input) free.db failed_run.1.db (error_of failed_run.0)
unfolding handle_webhook trimmed handle_webhook_tx within_transaction get_tenant get_channel_by_key
    first pure fail ◌>>=◌ fail_if catch outside trim_space new
handle_webhook_err_example =
    handle_webhook_err engine engine_laws none bad_input free (error_of failed_run.0) failed_run.1
      (refused failed_run tt)
