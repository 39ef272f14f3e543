-- ===== src/Exec/Io.antt =====
-- Code that calls the world outside the program and may return an error, where no table of the model
-- is at stake: start-up, the connections, the migrations.
use sociomile.Prelude.{◌≡◌, refl, String, subst, subst⁻¹, [], ◌∷◌, concat}
use sociomile.Apperror.{Error, app, record_not_found, other}
use sociomile.Exec.{Result, ok, err}

abbrev pub Io : Type 0 → Type 0 → Type 0
Io W A = W → Result A × W

-- `(error).Error`
abbrev pub text_of : Error → String
text_of (app e) = e.message
text_of record_not_found = "record not found"
text_of (other text) = text

-- `fmt.Errorf("<what>: %w", err)`, for errors that are only printed
unfoldable pub wrapped : String → Error → Error
wrapped what e = other (concat (what ∷ ": " ∷ text_of e ∷ []))

module _ {W : Type 0} where
  unfoldable pub pure : {A : Type 0} → A → Io W A
  pure a w = (ok a, w)

  unfoldable pub fail : {A : Type 0} → Error → Io W A
  fail e w = (err e, w)

  abbrev pub continue : {A B : Type 0} → (A → Io W B) → Result A → Io W B
  continue f (ok a) w = f a w
  continue f (err e) w = (err e, w)

  infixl 5 ◌>>=◌ ◌>>◌
  unfoldable pub ◌>>=◌ : {A B : Type 0} → Io W A → (A → Io W B) → Io W B
  ◌>>=◌ m f w = continue f (m w).0 (m w).1

  abbrev pub ◌>>◌ : {B : Type 0} → Io W (Unit {0}) → Io W B → Io W B
  m >> k = m >>= λ _. k

  abbrev pub recover : {A : Type 0} → (Error → Io W A) → Result A → Io W A
  recover h (ok a) w = (ok a, w)
  recover h (err e) w = h e w

  -- `if err != nil { … }`
  unfoldable pub catch : {A : Type 0} → Io W A → (Error → Io W A) → Io W A
  catch m h w = recover h (m w).0 (m w).1

  -- `if err != nil { return fmt.Errorf(…) }`
  abbrev pub wrapping : {A : Type 0} → String → Io W A → Io W A
  wrapping what m = catch m (λ e. fail (wrapped what e))

  abbrev pub Holds : {A : Type 0} → (A → W → Type 0) → (Error → W → Type 0) → Result A → W → Type 0
  Holds Q E (ok a) w = Q a w
  Holds Q E (err e) w = E e w

  -- What holds after a success and after a failure.
  pub record Leads {A : Type 0} (m : Io W A) (w : W) (Q : A → W → Type 0) (E : Error → W → Type 0)
      : Type 0 where
    pub at : Holds Q E (m w).0 (m w).1

  pub leads_from :
      {A : Type 0} (m : Io W A) (w : W) {Q : A → W → Type 0} {E : Error → W → Type 0}
      → ((a : A) (v : W) → m w ≡ (ok a, v) → Q a v)
      → ((e : Error) (v : W) → m w ≡ (err e, v) → E e v)
      → Leads m w Q E
  leads_from {A} m w {Q} {E} good bad = go (m w).0 (m w).1 refl
    where
      go : (r : Result A) (v : W) → m w ≡ (r, v) → Leads m w Q E
      go (ok a) v e = record { at = subst⁻¹ (λ r. Holds Q E r.0 r.1) e (good a v e) }
      go (err x) v e = record { at = subst⁻¹ (λ r. Holds Q E r.0 r.1) e (bad x v e) }

  pub leads_seq :
      {A B : Type 0} (m : Io W A) (f : A → Io W B) {w : W} {P : A → W → Type 0}
      {F : Error → W → Type 0} {Q : B → W → Type 0} {E : Error → W → Type 0}
      → Leads m w P F
      → ((a : A) (v : W) → P a v → Leads (f a) v Q E)
      → ((e : Error) (v : W) → F e v → E e v)
      → Leads (m >>= f) w Q E
  unfolding ◌>>=◌
  leads_seq {A} m f {w} {P} {F} {Q} {E} h next stop = record { at = go (m w).0 (m w).1 h.at }
    where
      go : (r : Result A) (v : W) → Holds P F r v → Holds Q E (continue f r v).0 (continue f r v).1
      go (ok a) v p = (next a v p).at
      go (err e) v p = stop e v p

  pub leads_catch :
      {A : Type 0} (m : Io W A) (h : Error → Io W A) {w : W} {P : A → W → Type 0}
      {F : Error → W → Type 0} {Q : A → W → Type 0} {E : Error → W → Type 0}
      → Leads m w P F
      → ((a : A) (v : W) → P a v → Q a v)
      → ((e : Error) (v : W) → F e v → Leads (h e) v Q E)
      → Leads (catch m h) w Q E
  unfolding catch
  leads_catch {A} m h {w} {P} {F} {Q} {E} p good bad = record { at = go (m w).0 (m w).1 p.at }
    where
      go : (r : Result A) (v : W) → Holds P F r v → Holds Q E (recover h r v).0 (recover h r v).1
      go (ok a) v q = good a v q
      go (err e) v q = (bad e v q).at

  pub leads_wrapping :
      {A : Type 0} (what : String) (m : Io W A) {w : W} {Q : A → W → Type 0} {P : W → Type 0}
      → Leads m w Q (λ e v. P v)
      → Leads (wrapping what m) w Q (λ e v. P v)
  unfolding fail
  leads_wrapping what m h = leads_catch m _ h (λ a v q. q) (λ e v p. record { at = p })

  pub leads_weaken :
      {A : Type 0} (m : Io W A) {w : W} {P : A → W → Type 0} {F : Error → W → Type 0}
      {Q : A → W → Type 0} {E : Error → W → Type 0}
      → Leads m w P F
      → ((a : A) (v : W) → P a v → Q a v)
      → ((e : Error) (v : W) → F e v → E e v)
      → Leads m w Q E
  leads_weaken {A} m {w} {P} {F} {Q} {E} p good bad = record { at = go (m w).0 (m w).1 p.at }
    where
      go : (r : Result A) (v : W) → Holds P F r v → Holds Q E r v
      go (ok a) v q = good a v q
      go (err e) v q = bad e v q

  pub leads_ok :
      {A : Type 0} {m : Io W A} {w : W} {Q : A → W → Type 0} {E : Error → W → Type 0}
      → Leads m w Q E
      → (a : A) (v : W) → m w ≡ (ok a, v)
      → Q a v
  leads_ok {Q = Q} {E = E} h a v e = subst (λ r. Holds Q E r.0 r.1) e h.at

  pub leads_err :
      {A : Type 0} {m : Io W A} {w : W} {Q : A → W → Type 0} {E : Error → W → Type 0}
      → Leads m w Q E
      → (x : Error) (v : W) → m w ≡ (err x, v)
      → E x v
  leads_err {Q = Q} {E = E} h x v e = subst (λ r. Holds Q E r.0 r.1) e h.at
