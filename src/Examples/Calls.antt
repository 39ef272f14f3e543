-- ===== src/Examples/Calls.antt =====
-- The theorems about sequences of calls, applied to a small database.
use mathlib.Core.Bool.{false≢true}
use sociomile.Prelude.{eq_iff, String, ◌≢◌, inl, inr, refl, none, subst⁻¹, Member, ◌∷◌, []}
use sociomile.Model.{Conversation}
use sociomile.Invariant.{IsWellFormed, IsCoherent, is_open}
use sociomile.Invariant.Calls.{Request, reply, close, after}
use sociomile.Invariant.Reachable.{started, called, IsReachable-IsWellFormed}
use sociomile.Invariant.Isolation.{tenant_of, IsApart, after-IsApart}
use sociomile.Examples.Engine.{engine}
use sociomile.Examples.Engine.Laws.{engine_laws}
use sociomile.Examples.Data.{free, conversation}

abbrev pub answer : Request
answer = reply "t" "c" "a" "hello"

abbrev finish : Request
finish = close "t" "c" "a" "agent"

free-IsCoherent : (c : Conversation) → Member c (conversation "open" none ∷ []) → IsCoherent c
free-IsCoherent c (inl e) = subst⁻¹ IsCoherent e (is_open refl refl)
free-IsCoherent c (inr m) = elim m [ ]

free_sound : IsWellFormed free.db
free_sound = record {
  conversation_ids = (λ y m. elim m [ ], tt);
  coherent = free-IsCoherent;
  ticket_ids = tt;
  one_ticket = tt;
  owned = λ t m. elim m [ ];
}

IsReachable-IsWellFormed_example :
    IsWellFormed (after engine none finish (after engine none answer free)).db
IsReachable-IsWellFormed_example =
    IsReachable-IsWellFormed engine engine_laws none free
      (after engine none finish (after engine none answer free)) free_sound
      (called (after engine none answer free) finish (called free answer started))

abbrev stranger : String
stranger = "u"

names_differ : tenant_of answer ≢ stranger
names_differ e = false≢true ((eq_iff (tenant_of answer) stranger).1 e)

after-IsApart_example : IsApart stranger free.db (after engine none answer free).db
after-IsApart_example =
    after-IsApart engine engine_laws none free answer stranger names_differ free_sound
