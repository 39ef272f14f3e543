-- ===== src/Worker/Attempts.antt =====
-- backend/cmd/worker/main.go: what the tries of events leave in the rows of the outbox.
use sociomile.Prelude.{
  ℕ, ◌<◌, ◌≤◌, String, ◌≡◌, ◌⊎◌, inl, inr, refl, ap, ◌∙◌, subst⁻¹, some, List, [], ◌∷◌, Member, map,
  ◌==◌, eq_iff, Bool-cases, if◌then◌else◌, arith,
}
use sociomile.Model.{OutboxEvent}

-- An event after it was tried: it is published, or has one more failed attempt at least.
abbrev pub IsTried : OutboxEvent → OutboxEvent → Type 0
IsTried x y = ((t : ℕ) × (y.published_at ≡ some t)) ⊎ (x.attempts < y.attempts)

-- A row of the outbox and what has become of it, when the identifiers `D` have been tried.
pub record IsTracked (D : String → Type 0) (x y : OutboxEvent) : Type 0 where
  pub same_id : y.id ≡ x.id
  pub bound : x.attempts ≤ y.attempts
  pub tried : D x.id → IsTried x y

abbrev pub Tracked : (String → Type 0) → List OutboxEvent → List OutboxEvent → Type 0
Tracked D [] [] = Unit
Tracked D [] (y ∷ ys) = ⊥
Tracked D (x ∷ xs) [] = ⊥
Tracked D (x ∷ xs) (y ∷ ys) = IsTracked D x y × Tracked D xs ys

-- Each row with the identifier of one of `events` has been tried.
abbrev pub AllTried : List OutboxEvent → List OutboxEvent → List OutboxEvent → Type 0
AllTried events [] [] = Unit
AllTried events [] (y ∷ ys) = ⊥
AllTried events (x ∷ xs) [] = ⊥
AllTried events (x ∷ xs) (y ∷ ys) =
    ((e : OutboxEvent) → Member e events → x.id ≡ e.id → IsTried x y) × AllTried events xs ys

-- An update that counts as a try.
pub record IsTry (f : OutboxEvent → OutboxEvent) : Type 0 where
  pub keeps_id : (y : OutboxEvent) → (f y).id ≡ y.id
  pub counts : (y : OutboxEvent) → y.attempts ≤ (f y).attempts
  pub tries : (x y : OutboxEvent) → x.attempts ≤ y.attempts → IsTried x (f y)

abbrev pub WithId : (String → Type 0) → String → String → Type 0
WithId D id i = (i ≡ id) ⊎ D i

module _ (D : String → Type 0) (id : String) (f : OutboxEvent → OutboxEvent) (try : IsTry f) where
  updated-IsTracked :
      (x y : OutboxEvent)
      → IsTracked D x y
      → IsTracked (WithId D id) x (if y.id == id then f y else y)
  updated-IsTracked x y h = elim (Bool-cases (y.id == id)) [
    | inl same ↦ rw same (record {
      same_id = try.keeps_id y ∙ h.same_id;
      bound = let le = try.counts y in let bound = h.bound in omega arith;
      tried = λ d. try.tries x y h.bound;
    })
    | inr other ↦ rw other (record {
      same_id = h.same_id;
      bound = h.bound;
      tried = λ d. elim d [
        | inl e ↦ absurd (ground (arith, (eq_iff y.id id).1 (h.same_id ∙ e)))
        | inr old ↦ h.tried old
      ];
    })
  ]

  pub Tracked-update :
      (xs ys : List OutboxEvent)
      → Tracked D xs ys
      → Tracked (WithId D id) xs (map (λ r. if r.id == id then f r else r) ys)
  Tracked-update [] [] h = tt
  Tracked-update [] (y ∷ ys) h = elim h [ ]
  Tracked-update (x ∷ xs) [] h = elim h [ ]
  Tracked-update (x ∷ xs) (y ∷ ys) (h, hs) = (updated-IsTracked x y h, Tracked-update xs ys hs)

pub Tracked-refl : (xs : List OutboxEvent) → Tracked (λ i. ⊥) xs xs
Tracked-refl [] = tt
Tracked-refl (x ∷ xs) =
    (record { same_id = refl; bound = omega arith; tried = λ d. absurd d }, Tracked-refl xs)

-- The identifiers tried once `events` have been.
abbrev pub After : List OutboxEvent → (String → Type 0) → String → Type 0
After [] D = D
After (e ∷ events) D = After events (WithId D e.id)

After-keeps :
    (events : List OutboxEvent) (D : String → Type 0) (i : String) → D i → After events D i
After-keeps [] D i d = d
After-keeps (e ∷ events) D i d = After-keeps events (WithId D e.id) i (inr d)

After-Member :
    (events : List OutboxEvent) (D : String → Type 0) (e : OutboxEvent)
    → Member e events
    → After events D e.id
After-Member [] D e m = elim m [ ]
After-Member (x ∷ events) D e (inl same) =
    After-keeps events (WithId D x.id) e.id (inl (ap (λ (r : OutboxEvent). r.id) same))
After-Member (x ∷ events) D e (inr m) = After-Member events (WithId D x.id) e m

pub Tracked-AllTried :
    (events xs ys : List OutboxEvent)
    → Tracked (After events (λ i. ⊥)) xs ys
    → AllTried events xs ys
Tracked-AllTried events [] [] h = tt
Tracked-AllTried events [] (y ∷ ys) h = elim h [ ]
Tracked-AllTried events (x ∷ xs) [] h = elim h [ ]
Tracked-AllTried events (x ∷ xs) (y ∷ ys) (h, hs) = (
  λ e m same. h.tried (subst⁻¹ (After events (λ i. ⊥)) same (After-Member events (λ i. ⊥) e m)),
  Tracked-AllTried events xs ys hs,
)
