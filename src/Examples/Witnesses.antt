-- ===== src/Examples/Witnesses.antt =====
-- The theorems about the conversation methods, applied to runs of the engine in memory.
use sociomile.Prelude.{ℕ, none, trim_space}
use sociomile.Apperror.{new}
use sociomile.Model.{Conversation, Ticket, before_create}
use sociomile.Exec.{Result, State, pure, fail, ◌>>=◌, fail_if, catch, outside}
use sociomile.Gorm.Session.{first, find, preload, create, save, now}
use sociomile.Repository.Store.{
  within_transaction, get_user_by_id_and_tenant, preload_conversation, find_ticket_by_conversation,
  preload_ticket, ticket_or_none, get_ticket_by_id, save_ticket, create_ticket,
  get_conversation_by_id, save_conversation, create_message, create_activity_log,
  create_outbox_event,
}
use sociomile.Cache.{bump_version}
use sociomile.Service.Events.{append_domain_event}
use sociomile.Service.Conversation.{
  get_conversation, reply_to_conversation_tx, reply_to_conversation, close_conversation_tx,
  close_open, close_conversation, assign_conversation_tx, assign_conversation,
}
use sociomile.Service.Conversation.Commit.{Failed}
use sociomile.Service.Conversation.Close.{
  Closed, CloseRefused, close_conversation_ok, close_conversation_err,
}
use sociomile.Service.Conversation.Assign.{
  Assigned, AssignFailed, assign_conversation_ok, assign_conversation_err,
}
use sociomile.Service.Ticket.{
  EscalateTicketInput, is_valid_priority, is_valid_ticket_status, normalized, get_ticket,
  has_ticket, take_if_free, escalate_conversation_tx, escalate_conversation, update_status_tx,
  update_status,
}
use sociomile.Service.Ticket.Escalate.{
  Escalated, EscalateFailed, escalate_conversation_ok, escalate_conversation_err,
}
use sociomile.Service.Ticket.Status.{StatusSet, StatusFailed, update_status_ok, update_status_err}
use sociomile.Repository.Store.Rules.{IsShown}
use sociomile.Service.Conversation.Reply.{
  Replied, ReplyFailed, reply_to_conversation_ok, reply_to_conversation_err,
}
use sociomile.Examples.Engine.{engine}
use sociomile.Examples.Engine.Laws.{engine_laws}
use sociomile.Examples.Data.{
  free, taken, shut, conversation, ticket, value_or, error_of, returned, refused,
}

abbrev reply_to_conversation_ok_run : Result Conversation × State ℕ
reply_to_conversation_ok_run = reply_to_conversation engine none "t" "c" "a" " hi " free

reply_to_conversation_ok_example :
    Replied "t" "c" "a"
      (trim_space " hi ")
      free.db
      reply_to_conversation_ok_run.1.db
      (value_or (conversation "" none) reply_to_conversation_ok_run.0)
unfolding reply_to_conversation reply_to_conversation_tx get_conversation append_domain_event
    bump_version close_conversation close_conversation_tx close_open assign_conversation
    assign_conversation_tx escalate_conversation escalate_conversation_tx has_ticket take_if_free
    normalized is_valid_priority update_status update_status_tx is_valid_ticket_status get_ticket
    get_ticket_by_id save_ticket create_ticket within_transaction get_user_by_id_and_tenant
    preload_conversation find_ticket_by_conversation preload_ticket ticket_or_none
    get_conversation_by_id save_conversation create_message create_activity_log create_outbox_event
    first find preload create save now pure fail ◌>>=◌ fail_if catch outside trim_space new
    before_create
reply_to_conversation_ok_example =
    reply_to_conversation_ok engine engine_laws none "t" "c" "a" " hi " free
      (value_or (conversation "" none) reply_to_conversation_ok_run.0)
      reply_to_conversation_ok_run.1
      (returned (conversation "" none) reply_to_conversation_ok_run tt)

abbrev reply_to_conversation_err_run : Result Conversation × State ℕ
reply_to_conversation_err_run = reply_to_conversation engine none "t" "c" "b" "hi" taken

reply_to_conversation_err_example :
    ReplyFailed engine "t" "c" "b"
      (trim_space "hi")
      taken.db
      reply_to_conversation_err_run.1.db
      (error_of reply_to_conversation_err_run.0)
unfolding reply_to_conversation reply_to_conversation_tx get_conversation append_domain_event
    bump_version close_conversation close_conversation_tx close_open assign_conversation
    assign_conversation_tx escalate_conversation escalate_conversation_tx has_ticket take_if_free
    normalized is_valid_priority update_status update_status_tx is_valid_ticket_status get_ticket
    get_ticket_by_id save_ticket create_ticket within_transaction get_user_by_id_and_tenant
    preload_conversation find_ticket_by_conversation preload_ticket ticket_or_none
    get_conversation_by_id save_conversation create_message create_activity_log create_outbox_event
    first find preload create save now pure fail ◌>>=◌ fail_if catch outside trim_space new
    before_create
reply_to_conversation_err_example =
    reply_to_conversation_err engine engine_laws none "t" "c" "b" "hi" taken
      (error_of reply_to_conversation_err_run.0) reply_to_conversation_err_run.1
      (refused reply_to_conversation_err_run tt)

abbrev close_conversation_ok_run : Result Conversation × State ℕ
close_conversation_ok_run = close_conversation engine none "t" "c" "a" "agent" taken

close_conversation_ok_example :
    Closed "t" "c" "a" "agent" taken.db close_conversation_ok_run.1.db
    × IsShown close_conversation_ok_run.1.db "t" "c"
        (value_or (conversation "" none) close_conversation_ok_run.0)
unfolding reply_to_conversation reply_to_conversation_tx get_conversation append_domain_event
    bump_version close_conversation close_conversation_tx close_open assign_conversation
    assign_conversation_tx escalate_conversation escalate_conversation_tx has_ticket take_if_free
    normalized is_valid_priority update_status update_status_tx is_valid_ticket_status get_ticket
    get_ticket_by_id save_ticket create_ticket within_transaction get_user_by_id_and_tenant
    preload_conversation find_ticket_by_conversation preload_ticket ticket_or_none
    get_conversation_by_id save_conversation create_message create_activity_log create_outbox_event
    first find preload create save now pure fail ◌>>=◌ fail_if catch outside trim_space new
    before_create
close_conversation_ok_example =
    close_conversation_ok engine engine_laws none "t" "c" "a" "agent" taken
      (value_or (conversation "" none) close_conversation_ok_run.0) close_conversation_ok_run.1
      (returned (conversation "" none) close_conversation_ok_run tt)

abbrev close_conversation_err_run : Result Conversation × State ℕ
close_conversation_err_run = close_conversation engine none "t" "c" "b" "agent" taken

close_conversation_err_example :
    Failed
      (λ d. (u : Unit {0}) × Closed "t" "c" "b" "agent" taken.db d)
      (CloseRefused "t" "c" "b" "agent" taken.db)
      taken.db
      (error_of close_conversation_err_run.0)
      close_conversation_err_run.1.db
unfolding reply_to_conversation reply_to_conversation_tx get_conversation append_domain_event
    bump_version close_conversation close_conversation_tx close_open assign_conversation
    assign_conversation_tx escalate_conversation escalate_conversation_tx has_ticket take_if_free
    normalized is_valid_priority update_status update_status_tx is_valid_ticket_status get_ticket
    get_ticket_by_id save_ticket create_ticket within_transaction get_user_by_id_and_tenant
    preload_conversation find_ticket_by_conversation preload_ticket ticket_or_none
    get_conversation_by_id save_conversation create_message create_activity_log create_outbox_event
    first find preload create save now pure fail ◌>>=◌ fail_if catch outside trim_space new
    before_create
close_conversation_err_example =
    close_conversation_err engine engine_laws none "t" "c" "b" "agent" taken
      (error_of close_conversation_err_run.0) close_conversation_err_run.1
      (refused close_conversation_err_run tt)

abbrev assign_conversation_ok_run : Result Conversation × State ℕ
assign_conversation_ok_run = assign_conversation engine none "t" "c" "u" "admin" " a" free

assign_conversation_ok_example :
    Assigned "t" "c" "u" "admin"
      (trim_space " a")
      free.db
      assign_conversation_ok_run.1.db
      (value_or (conversation "" none) assign_conversation_ok_run.0)
unfolding reply_to_conversation reply_to_conversation_tx get_conversation append_domain_event
    bump_version close_conversation close_conversation_tx close_open assign_conversation
    assign_conversation_tx escalate_conversation escalate_conversation_tx has_ticket take_if_free
    normalized is_valid_priority update_status update_status_tx is_valid_ticket_status get_ticket
    get_ticket_by_id save_ticket create_ticket within_transaction get_user_by_id_and_tenant
    preload_conversation find_ticket_by_conversation preload_ticket ticket_or_none
    get_conversation_by_id save_conversation create_message create_activity_log create_outbox_event
    first find preload create save now pure fail ◌>>=◌ fail_if catch outside trim_space new
    before_create
assign_conversation_ok_example =
    assign_conversation_ok engine engine_laws none "t" "c" "u" "admin" " a" free
      (value_or (conversation "" none) assign_conversation_ok_run.0) assign_conversation_ok_run.1
      (returned (conversation "" none) assign_conversation_ok_run tt)

abbrev assign_conversation_err_run : Result Conversation × State ℕ
assign_conversation_err_run = assign_conversation engine none "t" "c" "u" "admin" "a" shut

assign_conversation_err_example :
    AssignFailed engine "t" "c" "u" "admin"
      (trim_space "a")
      shut.db
      assign_conversation_err_run.1.db
      (error_of assign_conversation_err_run.0)
unfolding reply_to_conversation reply_to_conversation_tx get_conversation append_domain_event
    bump_version close_conversation close_conversation_tx close_open assign_conversation
    assign_conversation_tx escalate_conversation escalate_conversation_tx has_ticket take_if_free
    normalized is_valid_priority update_status update_status_tx is_valid_ticket_status get_ticket
    get_ticket_by_id save_ticket create_ticket within_transaction get_user_by_id_and_tenant
    preload_conversation find_ticket_by_conversation preload_ticket ticket_or_none
    get_conversation_by_id save_conversation create_message create_activity_log create_outbox_event
    first find preload create save now pure fail ◌>>=◌ fail_if catch outside trim_space new
    before_create
assign_conversation_err_example =
    assign_conversation_err engine engine_laws none "t" "c" "u" "admin" "a" shut
      (error_of assign_conversation_err_run.0) assign_conversation_err_run.1
      (refused assign_conversation_err_run tt)

abbrev input : EscalateTicketInput
input = record { title = "Down "; description = "all day"; priority = "" }

abbrev escalate_conversation_ok_run : Result Ticket × State ℕ
escalate_conversation_ok_run = escalate_conversation engine none "t" "c" "a" input free

escalate_conversation_ok_example :
    Escalated "t" "c" "a" (normalized input) free.db escalate_conversation_ok_run.1.db
unfolding reply_to_conversation reply_to_conversation_tx get_conversation append_domain_event
    bump_version close_conversation close_conversation_tx close_open assign_conversation
    assign_conversation_tx escalate_conversation escalate_conversation_tx has_ticket take_if_free
    normalized is_valid_priority update_status update_status_tx is_valid_ticket_status get_ticket
    get_ticket_by_id save_ticket create_ticket within_transaction get_user_by_id_and_tenant
    preload_conversation find_ticket_by_conversation preload_ticket ticket_or_none
    get_conversation_by_id save_conversation create_message create_activity_log create_outbox_event
    first find preload create save now pure fail ◌>>=◌ fail_if catch outside trim_space new
    before_create
escalate_conversation_ok_example =
    escalate_conversation_ok engine engine_laws none "t" "c" "a" input free
      (value_or ticket escalate_conversation_ok_run.0) escalate_conversation_ok_run.1
      (returned ticket escalate_conversation_ok_run tt)

abbrev escalate_conversation_err_run : Result Ticket × State ℕ
escalate_conversation_err_run = escalate_conversation engine none "t" "c" "a" input taken

escalate_conversation_err_example :
    EscalateFailed engine "t" "c" "a"
      (normalized input)
      taken.db
      escalate_conversation_err_run.1.db
      (error_of escalate_conversation_err_run.0)
unfolding reply_to_conversation reply_to_conversation_tx get_conversation append_domain_event
    bump_version close_conversation close_conversation_tx close_open assign_conversation
    assign_conversation_tx escalate_conversation escalate_conversation_tx has_ticket take_if_free
    normalized is_valid_priority update_status update_status_tx is_valid_ticket_status get_ticket
    get_ticket_by_id save_ticket create_ticket within_transaction get_user_by_id_and_tenant
    preload_conversation find_ticket_by_conversation preload_ticket ticket_or_none
    get_conversation_by_id save_conversation create_message create_activity_log create_outbox_event
    first find preload create save now pure fail ◌>>=◌ fail_if catch outside trim_space new
    before_create
escalate_conversation_err_example =
    escalate_conversation_err engine engine_laws none "t" "c" "a" input taken
      (error_of escalate_conversation_err_run.0) escalate_conversation_err_run.1
      (refused escalate_conversation_err_run tt)

abbrev update_status_ok_run : Result Ticket × State ℕ
update_status_ok_run = update_status engine none "t" "i" "u" "admin" "resolved" taken

update_status_ok_example :
    StatusSet "t" "i" "u" "admin" (trim_space "resolved") taken.db update_status_ok_run.1.db
unfolding reply_to_conversation reply_to_conversation_tx get_conversation append_domain_event
    bump_version close_conversation close_conversation_tx close_open assign_conversation
    assign_conversation_tx escalate_conversation escalate_conversation_tx has_ticket take_if_free
    normalized is_valid_priority update_status update_status_tx is_valid_ticket_status get_ticket
    get_ticket_by_id save_ticket create_ticket within_transaction get_user_by_id_and_tenant
    preload_conversation find_ticket_by_conversation preload_ticket ticket_or_none
    get_conversation_by_id save_conversation create_message create_activity_log create_outbox_event
    first find preload create save now pure fail ◌>>=◌ fail_if catch outside trim_space new
    before_create
update_status_ok_example =
    update_status_ok engine engine_laws none "t" "i" "u" "admin" "resolved" taken
      (value_or ticket update_status_ok_run.0) update_status_ok_run.1
      (returned ticket update_status_ok_run tt)

abbrev update_status_err_run : Result Ticket × State ℕ
update_status_err_run = update_status engine none "t" "j" "u" "admin" "resolved" taken

update_status_err_example :
    StatusFailed engine "t" "j" "u" "admin"
      (trim_space "resolved")
      taken.db
      update_status_err_run.1.db
      (error_of update_status_err_run.0)
unfolding reply_to_conversation reply_to_conversation_tx get_conversation append_domain_event
    bump_version close_conversation close_conversation_tx close_open assign_conversation
    assign_conversation_tx escalate_conversation escalate_conversation_tx has_ticket take_if_free
    normalized is_valid_priority update_status update_status_tx is_valid_ticket_status get_ticket
    get_ticket_by_id save_ticket create_ticket within_transaction get_user_by_id_and_tenant
    preload_conversation find_ticket_by_conversation preload_ticket ticket_or_none
    get_conversation_by_id save_conversation create_message create_activity_log create_outbox_event
    first find preload create save now pure fail ◌>>=◌ fail_if catch outside trim_space new
    before_create
update_status_err_example =
    update_status_err engine engine_laws none "t" "j" "u" "admin" "resolved" taken
      (error_of update_status_err_run.0) update_status_err_run.1 (refused update_status_err_run tt)
