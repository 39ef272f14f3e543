-- ===== src/Examples/Fresh.antt =====
-- The theorem about cached lists, applied to a reply over a Redis that answers.
use sociomile.Prelude.{
  ℕ, ◌+◌, pos, ◌≡◌, ◌≢◌, ◌⊎◌, refl, ap, some, arith, eqb, trim_space, if◌then◌else◌,
}
use sociomile.Model.{before_create}
use sociomile.Exec.{Result, ok, err, State, pure, fail, ◌>>=◌, fail_if, catch, outside}
use sociomile.Gorm.Session.{first, find, preload, create, save, now}
use sociomile.Repository.Store.{
  within_transaction, get_user_by_id_and_tenant, preload_conversation, find_ticket_by_conversation,
  preload_ticket, ticket_or_none, get_conversation_by_id, save_conversation, create_message,
  create_activity_log, create_outbox_event,
}
use sociomile.Cache.{bump_version}
use sociomile.Service.Events.{append_domain_event}
use sociomile.Service.Conversation.{
  get_conversation, reply_to_conversation, reply_to_conversation_tx,
}
use sociomile.Exec.Results.{ok≢err}
use sociomile.Gorm.Grows.{GormGrows}
use sociomile.Redis.{Redis, value, nil}
use sociomile.Repository.Filters.{ConversationFilter}
use sociomile.Cache.Versions.{Counter}
use sociomile.Service.Listing.{conversations_key}
use sociomile.Invariant.Calls.{after}
use sociomile.Invariant.Fresh.{conversations, after-IsFresh}
use sociomile.Examples.Engine.{engine, settle}
use sociomile.Examples.Engine.Laws.{engine_laws}
use sociomile.Examples.Calls.{answer}
use sociomile.Examples.Data.{free}

-- A Redis whose counters all stand at the number that is the world.
abbrev counting : Redis ℕ
counting = record {
  get = λ k w. (nil, w);
  get_int64 = λ k w. (if eqb w 0 then nil else value (pos w), w);
  set = λ k text ttl w. (ok tt, w);
  set_int = λ k n ttl w. (ok tt, w);
  incr = λ k w. (ok (pos (w + 1)), w + 1);
  expire = λ k ttl w. (ok tt, w);
}

abbrev rank : ℕ → ℕ
rank w = w

settled_world :
    {A : Type 0} (s : State ℕ) (p : Result A × State ℕ) → (settle s p).1.world ≡ p.1.world
settled_world s (ok a, t) = refl
settled_world s (err e, t) = refl

engine_grows : GormGrows engine rank
engine_grows = record {
  on_first = λ q rows w. omega arith;
  on_find = λ q p rows w. omega arith;
  on_count = λ p rows w. omega arith;
  on_preload = λ id fk rows w. omega arith;
  on_create = λ sc r rows w. omega arith;
  on_save = λ sc r rows w. omega arith;
  on_now = λ w. omega arith;
  on_transaction = λ m h. record { at = λ s. rw (settled_world s (m s)) (h.at s) };
}

counted : (w n : ℕ) → (if eqb w 0 then nil else value (pos w)) ≡ value (pos n) → n ≡ w
counted w n h = ground arith

counting_laws : Counter counting "t" "conversations" rank
counting_laws = record {
  incr_raises = λ w n w' e. ground (arith, e);
  incr_answers = λ w e w' h. ok≢err _ e (ap (λ p. p.0) h);
  incr_grows = λ k w. omega arith;
  get_value = λ w n h. ground (arith, h);
  get_nil = λ w h. ground (arith, h);
  get_answers = λ w e h. ground (arith, h);
}

abbrev replied : State ℕ
replied = after engine (some counting) answer free

abbrev open_ones : ConversationFilter
open_ones = record { status = "open"; assigned_agent_id = ""; offset = pos 0; limit = pos 20 }

replied_world : replied.world ≡ 7
unfolding reply_to_conversation reply_to_conversation_tx get_conversation append_domain_event
    bump_version within_transaction get_user_by_id_and_tenant preload_conversation
    find_ticket_by_conversation preload_ticket ticket_or_none get_conversation_by_id
    save_conversation create_message create_activity_log create_outbox_event first find preload
    create save now pure fail ◌>>=◌ fail_if catch outside trim_space before_create
replied_world = refl

after-IsFresh_example :
    (replied.db ≡ free.db)
    ⊎ (conversations_key "t" (pos 7) open_ones ≢ conversations_key "t" (pos 1) open_ones)
after-IsFresh_example =
    after-IsFresh engine engine_laws counting rank engine_grows free answer conversations tt
      counting_laws replied (omega arith) (rw replied_world (omega arith)) (pos 7)
      (rw replied_world refl) 1 (omega arith) (conversations_key "t" (pos 1) open_ones)
      (conversations_key "t" (pos 7) open_ones) (open_ones, refl) (open_ones, refl)
