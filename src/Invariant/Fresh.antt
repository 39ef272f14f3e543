-- ===== src/Invariant/Fresh.antt =====
-- backend/internal/service over backend/internal/cache: no list that was cached before a change is served
-- after it.
use Prim.Native.String
use sociomile.Prelude.{
  ℕ, ◌≤◌, ◌<◌, ℤ, pos, String, ◌≡◌, ◌≢◌, ◌⊎◌, inl, inr, sym, ◌∙◌, some, List, [], ◌∷◌, decimal,
  arith,
}
use sociomile.Exec.{State}
use sociomile.Gorm.{Gorm}
use sociomile.Gorm.Grows.{GormGrows}
use sociomile.Gorm.Laws.{GormLaws}
use sociomile.Redis.{Redis}
use sociomile.Repository.Filters.{ConversationFilter, TicketFilter}
use sociomile.Strconv.Decimal.{IsInt}
use sociomile.Cache.{key, join}
use sociomile.Cache.Rules.{IsVersion}
use sociomile.Cache.Versions.{Counter, IsVersion-rank}
use sociomile.Cache.Keys.{versioned_injective}
use sociomile.Service.Listing.{conversations_key, tickets_key}
use sociomile.Service.Marks.{
  Marks-assign, Marks-reply, Marks-close, Marks-escalate, Marks-webhook, Marks-tickets_escalate,
  Marks-status,
}
use sociomile.Invariant.Calls.{Request, receive, assign, reply, close, escalate, set_status, after}
use sociomile.Invariant.Isolation.{tenant_of}

-- The two lists that are cached, with the names that their versions and keys have in the cache.
pub data Resource : Type 0 where
  conversations : Resource
  tickets : Resource

abbrev pub name_of : Resource → String
name_of conversations = "conversations"
name_of tickets = "tickets"

-- The lists whose rows a call may change.
abbrev pub Changes : Request → Resource → Type 0
Changes (escalate tenant_id id agent_id input) r = Unit
Changes (set_status tenant_id id actor_id actor_role status) conversations = ⊥
Changes (set_status tenant_id id actor_id actor_role status) tickets = Unit
Changes call conversations = Unit
Changes call tickets = ⊥

-- A key under which a list of the tenant is cached with a version.
abbrev pub IsListKey : Resource → String → ℤ → String → Type 0
IsListKey conversations tenant_id v k =
    (filter : ConversationFilter) × (k ≡ conversations_key tenant_id v filter)
IsListKey tickets tenant_id v k = (filter : TicketFilter) × (k ≡ tickets_key tenant_id v filter)

-- The parts of a key in front of the version.
abbrev leading : String → String → String
leading tenant_id name =
    String.◌++◌
      (String.◌++◌ (String.◌++◌ (String.◌++◌ (String.◌++◌ "tenant" ":") tenant_id) ":") name) ":"

abbrev numbered : String → ℤ → String
numbered name n = String.◌++◌ name (decimal n)

-- The parts of the keys behind the version and the offset.
abbrev conversations_rest : ConversationFilter → List String
conversations_rest f =
    numbered "limit=" f.limit
    ∷ String.◌++◌ "status=" f.status
    ∷ String.◌++◌ "agent=" f.assigned_agent_id
    ∷ []

abbrev tickets_rest : TicketFilter → List String
tickets_rest f =
    numbered "limit=" f.limit
    ∷ String.◌++◌ "status=" f.status
    ∷ String.◌++◌ "priority=" f.priority
    ∷ String.◌++◌ "agent=" f.assigned_agent_id
    ∷ []

same_version :
    (r : Resource) (tenant_id : String) (v v' : ℤ) (k k' : String)
    → IsInt v
    → IsInt v'
    → IsListKey r tenant_id v k
    → IsListKey r tenant_id v' k'
    → k ≡ k'
    → v ≡ v'
unfolding conversations_key tickets_key key join
same_version conversations tenant_id v v' k k' fits fits' (f, e) (f', e') same =
    versioned_injective (leading tenant_id "conversations") (numbered "offset=" f.offset)
      (numbered "offset=" f'.offset) (conversations_rest f) (conversations_rest f') v v' fits fits'
      (sym e ∙ (same ∙ e'))
same_version tickets tenant_id v v' k k' fits fits' (f, e) (f', e') same =
    versioned_injective (leading tenant_id "tickets") (numbered "offset=" f.offset)
      (numbered "offset=" f'.offset) (tickets_rest f) (tickets_rest f') v v' fits fits'
      (sym e ∙ (same ∙ e'))

module _ {W : Type 0} (g : Gorm W) (laws : GormLaws g) (redis : Redis W) (rank : W → ℕ)
    (grows : GormGrows g rank) (s : State W) where
  -- A call changes no table, or raises the version of each list that it may change.
  after-raises :
      (call : Request) (r : Resource)
      → Changes call r
      → Counter redis (tenant_of call) (name_of r) rank
      → ((after g (some redis) call s).db ≡ s.db)
        ⊎ (rank s.world < rank (after g (some redis) call s).world)
  after-raises (receive input) conversations h c = (Marks-webhook laws grows input c).at s
  after-raises (assign t id actor_id actor_role agent_id) conversations h c =
      (Marks-assign laws grows t c id actor_id actor_role agent_id).at s
  after-raises (reply t id agent_id message) conversations h c =
      (Marks-reply laws grows t c id agent_id message).at s
  after-raises (close t id actor_id actor_role) conversations h c =
      (Marks-close laws grows t c id actor_id actor_role).at s
  after-raises (escalate t id agent_id input) conversations h c =
      (Marks-escalate laws grows t c id agent_id input).at s
  after-raises (escalate t id agent_id input) tickets h c =
      (Marks-tickets_escalate laws grows t c id agent_id input).at s
  after-raises (set_status t id actor_id actor_role status) tickets h c =
      (Marks-status laws grows t c id actor_id actor_role status).at s
  after-raises (set_status t id actor_id actor_role status) conversations h c = absurd h
  after-raises (receive input) tickets h c = absurd h
  after-raises (assign t id actor_id actor_role agent_id) tickets h c = absurd h
  after-raises (reply t id agent_id message) tickets h c = absurd h
  after-raises (close t id actor_id actor_role) tickets h c = absurd h

  -- While Redis answers and its counter is below 2 ^ 63, a call that may change a list of its
  -- tenant, whether it succeeds or fails, leaves the tables as they were, or no key under which
  -- that list is looked up from then on is one under which it was cached with a version up to the
  -- one at the start.
  pub after-IsFresh :
      (call : Request) (r : Resource)
      → Changes call r
      → Counter redis (tenant_of call) (name_of r) rank
      → (u : State W) → rank (after g (some redis) call s).world ≤ rank u.world
      → rank u.world < 9_223_372_036_854_775_808
      → (v : ℤ) → IsVersion (some redis) (tenant_of call) (name_of r) u.world v
      → (n : ℕ) → n ≤ rank s.world
      → (old new : String) → IsListKey r (tenant_of call) (pos n) old
      → IsListKey r (tenant_of call) v new
      → ((after g (some redis) call s).db ≡ s.db) ⊎ (new ≢ old)
  after-IsFresh call r changes counter u later fits v current n before old new is_old is_new =
      elim (after-raises call r changes counter) [
        | inl same ↦ inl same
        | inr raised ↦ inr (λ same.
            let counted = IsVersion-rank counter u.world v current (omega arith) in
            let equal : v ≡ pos n =
              same_version r (tenant_of call) v (pos n) new old (rw counted fits) (omega arith)
                is_new is_old same in
            pos_apart (rank u.world) n (omega arith) (sym counted ∙ equal))
      ]
    where
      pos_apart : (m n : ℕ) → n < m → pos m ≢ pos n
      pos_apart m n less e = let same : m ≡ n = cc in omega arith
