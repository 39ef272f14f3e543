-- ===== src/Exec/Ends.antt =====
-- How an action ends: what holds of the result and the state after a success, and of the error and
-- the state after a failure. A rule for each way to build an action reads a service from its first
-- step to its last.
use sociomile.Prelude.{◌≡◌, refl, Bool, true, false, subst, subst⁻¹, if◌then◌else◌}
use sociomile.Apperror.{Error}
use sociomile.Model.{Db}
use sociomile.Exec.{
  Result, ok, err, State, Exec, pure, fail, ◌>>=◌, ◌>>◌, continue, fail_if, catch, recover,
}

module _ {W : Type 0} where
  abbrev pub Holds :
      {A : Type 0}
      → (A → State W → Type 0)
      → (Error → State W → Type 0)
      → Result A
      → State W
      → Type 0
  Holds Q E (ok a) s = Q a s
  Holds Q E (err e) s = E e s

  pub record Ends {A : Type 0} (m : Exec W A) (s : State W) (Q : A → State W → Type 0)
      (E : Error → State W → Type 0) : Type 0 where
    pub at : Holds Q E (m s).0 (m s).1

module _ {W A : Type 0} {m : Exec W A} {s : State W} {Q : A → State W → Type 0}
    {E : Error → State W → Type 0} where
  -- An ending read at a run that succeeds, and at one that fails.
  pub ends_ok : Ends m s Q E → (a : A) (s' : State W) → m s ≡ (ok a, s') → Q a s'
  ends_ok h a s' e = subst (λ r. Holds Q E r.0 r.1) e h.at

  pub ends_err : Ends m s Q E → (x : Error) (s' : State W) → m s ≡ (err x, s') → E x s'
  ends_err h x s' e = subst (λ r. Holds Q E r.0 r.1) e h.at

  -- A run whose ending follows from the equation that it satisfies.
  pub ends_from :
      ((a : A) (s' : State W) → m s ≡ (ok a, s') → Q a s')
      → ((x : Error) (s' : State W) → m s ≡ (err x, s') → E x s')
      → Ends m s Q E
  ends_from good bad = go (m s).0 (m s).1 refl
    where
      go : (r : Result A) (s' : State W) → m s ≡ (r, s') → Ends m s Q E
      go (ok a) s' e = record { at = subst⁻¹ (λ r. Holds Q E r.0 r.1) e (good a s' e) }
      go (err x) s' e = record { at = subst⁻¹ (λ r. Holds Q E r.0 r.1) e (bad x s' e) }

module _ {W A : Type 0} {s : State W} {Q : A → State W → Type 0}
    {E : Error → State W → Type 0} where
  pub ends_pure : (a : A) → Q a s → Ends (pure a) s Q E
  unfolding pure
  ends_pure a h = record { at = h }

  pub ends_fail : (e : Error) → E e s → Ends (fail e) s Q E
  unfolding fail
  ends_fail e h = record { at = h }

  pub ends_guard :
      (b : Bool) (e : Error) (k : Exec W A)
      → (b ≡ true → E e s)
      → (b ≡ false → Ends k s Q E)
      → Ends (fail_if b e >> k) s Q E
  unfolding fail_if ◌>>=◌
  ends_guard true e k bad good = record { at = bad refl }
  ends_guard false e k bad good = record { at = (good refl).at }

  pub ends_if :
      (b : Bool) (m n : Exec W A)
      → (b ≡ true → Ends m s Q E)
      → (b ≡ false → Ends n s Q E)
      → Ends (if b then m else n) s Q E
  ends_if true m n p q = p refl
  ends_if false m n p q = q refl

  pub ends_seq :
      {B : Type 0} (m : Exec W B) (f : B → Exec W A) {P : B → State W → Type 0}
      {F : Error → State W → Type 0}
      → Ends m s P F
      → ((b : B) (s' : State W) → P b s' → Ends (f b) s' Q E)
      → ((e : Error) (s' : State W) → F e s' → E e s')
      → Ends (m >>= f) s Q E
  unfolding ◌>>=◌
  ends_seq {B} m f {P} {F} h next stop = record { at = go (m s).0 (m s).1 h.at }
    where
      go :
          (r : Result B) (s' : State W)
          → Holds P F r s'
          → Holds Q E (continue f r s').0 (continue f r s').1
      go (ok b) s' p = (next b s' p).at
      go (err e) s' p = stop e s' p

  pub ends_catch :
      (m : Exec W A) (h : Error → Exec W A) {P : A → State W → Type 0}
      {F : Error → State W → Type 0}
      → Ends m s P F
      → ((a : A) (s' : State W) → P a s' → Q a s')
      → ((e : Error) (s' : State W) → F e s' → Ends (h e) s' Q E)
      → Ends (catch m h) s Q E
  unfolding catch
  ends_catch m h {P} {F} p good bad = record { at = go (m s).0 (m s).1 p.at }
    where
      go :
          (r : Result A) (s' : State W)
          → Holds P F r s'
          → Holds Q E (recover h r s').0 (recover h r s').1
      go (ok a) s' p = good a s' p
      go (err e) s' p = (bad e s' p).at

  pub ends_weaken :
      (m : Exec W A) {P : A → State W → Type 0} {F : Error → State W → Type 0}
      → Ends m s P F
      → ((a : A) (s' : State W) → P a s' → Q a s')
      → ((e : Error) (s' : State W) → F e s' → E e s')
      → Ends m s Q E
  ends_weaken m {P} {F} p good bad = record { at = go (m s).0 (m s).1 p.at }
    where
      go : (r : Result A) (s' : State W) → Holds P F r s' → Holds Q E r s'
      go (ok a) s' p = good a s' p
      go (err e) s' p = bad e s' p

-- Code that runs at tables known by an equation.
pub ends_at :
    {W A : Type 0} (m : Exec W A) (s : State W) (d : Db) {Q : A → State W → Type 0}
    {E : Error → State W → Type 0}
    → s.db ≡ d
    → Ends m (record { db = d; world = s.world }) Q E
    → Ends m s Q E
ends_at m s d {Q} {E} same h = subst⁻¹ (λ x. Ends m (record { db = x; world = s.world }) Q E) same h

-- What holds at each end holds of the state in which the run ends.
pub ends_state :
    {W A : Type 0} (m : Exec W A) (s : State W) (P : State W → Type 0)
    → Ends m s (λ a s'. P s') (λ e s'. P s')
    → P (m s).1
ends_state {W} {A} m s P h = go (m s).0 (m s).1 h.at
  where
    go : (r : Result A) (s' : State W) → Holds (λ a s'. P s') (λ e s'. P s') r s' → P s'
    go (ok a) s' p = p
    go (err e) s' p = p

-- A guard with nothing behind it.
pub ends_guard_last :
    {W : Type 0} (b : Bool) (e : Error) (s : State W)
    → Ends
        (fail_if b e)
        s
        (λ u s'. (s'.db ≡ s.db) × (b ≡ false))
        (λ x s'. (s'.db ≡ s.db) × ((b ≡ true) × (x ≡ e)))
unfolding fail_if pure fail
ends_guard_last true e s = record { at = (refl, (refl, refl)) }
ends_guard_last false e s = record { at = (refl, refl) }
