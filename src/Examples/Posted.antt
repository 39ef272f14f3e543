-- ===== src/Examples/Posted.antt =====
-- The theorem about the route that posts a reply, applied to a server and a request.
use sociomile.Prelude.{ℕ, trim_space, split_space, equal_fold}
use sociomile.Apperror.{new}
use sociomile.Model.{before_create}
use sociomile.Exec.{State, pure, fail, ◌>>=◌, fail_if, catch, outside}
use sociomile.Gorm.Session.{first, find, preload, create, save, now}
use sociomile.Repository.Store.{
  within_transaction, get_user_by_id_and_tenant, preload_conversation, find_ticket_by_conversation,
  preload_ticket, ticket_or_none, get_conversation_by_id, save_conversation, create_message,
  create_activity_log, create_outbox_event,
}
use sociomile.Cache.{bump_version}
use sociomile.Auth.{parse_token, signing_key}
use sociomile.Service.Events.{append_domain_event}
use sociomile.Service.Conversation.{
  get_conversation, reply_to_conversation_tx, reply_to_conversation,
}
use sociomile.Http.{
  Response, protected, respond, authenticate, require_roles, current_claims, bind_body,
  reply_handler,
}
use sociomile.Http.Routes.{Body, text, post_message, dispatch}
use sociomile.Http.Routes.Posted.{IsPosted, reply_route_ok}
use sociomile.Examples.Engine.Laws.{engine_laws}
use sociomile.Examples.Data.{free}
use sociomile.Examples.Access.{sent_status, sent, answer}
use sociomile.Examples.Routes.{server, request}

abbrev posted : Response Body × State ℕ
posted = dispatch server (post_message "c") request free

reply_route_ok_example :
    IsPosted server "c" request free (sent_status posted.0) (sent (text "") posted.0) posted.1
unfolding dispatch protected respond authenticate require_roles reply_handler current_claims
    bind_body parse_token signing_key split_space equal_fold reply_to_conversation
    reply_to_conversation_tx get_conversation append_domain_event bump_version within_transaction
    get_user_by_id_and_tenant preload_conversation find_ticket_by_conversation preload_ticket
    ticket_or_none get_conversation_by_id save_conversation create_message create_activity_log
    create_outbox_event first find preload create save now pure fail ◌>>=◌ fail_if catch outside
    trim_space new before_create
reply_route_ok_example =
    reply_route_ok server engine_laws "c" request free (sent_status posted.0)
      (sent (text "") posted.0) posted.1 (answer (text "") posted tt)
