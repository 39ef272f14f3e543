-- ===== src/Invariant/Lifecycle/Simulation.antt =====
-- backend/internal/service: every call that writes, in any order, is a number of steps of the abstract
-- life of each conversation.
use sociomile.Prelude.{String, ◌≡◌, ◌≢◌, List, Member}
use sociomile.Model.{Conversation}
use sociomile.Model.Schema
use sociomile.Model.Schema.{key}
use sociomile.Gorm.{Gorm}
use sociomile.Invariant.Lifecycle.{free, phase, Continues}

-- Where a row comes from after a step of the machine: it continues one of the rows before, or it is a
-- new conversation, which is free.
pub data HasOrigin (xs : List Conversation) (c' : Conversation) : Type 0 where
  old : (c : Conversation) → Member c xs → Continues c c' → HasOrigin xs c'
  new : ((c : Conversation) → Member c xs → c.id ≢ c'.id) → phase c' ≡ free → HasOrigin xs c'

-- Every conversation is still there, later in its life.
abbrev pub IsLater : List Conversation → List Conversation → Type 0
IsLater xs ys =
    (c : Conversation) → Member c xs → (c' : Conversation) × Member c' ys × Continues c c'

-- A step of the abstract machine: every conversation is still there, and each one has its origin.
pub record IsSimulated (xs ys : List Conversation) : Type 0 where
  pub later : IsLater xs ys
  pub origin : (c' : Conversation) → Member c' ys → HasOrigin xs c'

-- A run of the abstract machine.
pub data IsRun : List Conversation → List Conversation → Type 0 where
  rests : (xs : List Conversation) → IsRun xs xs
  moves : (xs ys zs : List Conversation) → IsRun xs ys → IsSimulated ys zs → IsRun xs zs

abbrev conversation_key : Conversation → String
conversation_key = key Schema.conversations
