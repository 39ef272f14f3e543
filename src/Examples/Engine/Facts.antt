-- ===== src/Examples/Engine/Facts.antt =====
-- What the functions of the engine in memory return.
use mathlib.Core.Bool.{false≢true}
use mathlib.Core.List.{Perm}
use mathlib.Core.List.Perm
use sociomile.Prelude.{
  ℕ, String, ◌≡◌, ◌≢◌, inl, inr, refl, sym, ap, ◌∙◌, subst, subst⁻¹, Bool, true, false, not, Option,
  none, some, List, [], ◌∷◌, ◌++◌, Member, select, ◌==◌, eq_iff, arith, Bool-cases,
}
use sociomile.Apperror.{Error, record_not_found, other}
use sociomile.Model.Schema.{Schema, key}
use sociomile.Exec.{Result, ok, err, State}
use sociomile.Gorm.{IsEngine, IsOrdered}
use sociomile.Examples.Engine.{
  all, least, insert, sort, in_order, found_or, with_key, by_key, add_row, settle,
}

pub all-Member :
    {R : Type 0} (p : R → Bool) (xs : List R) → all p xs ≡ true → (x : R) → Member x xs → p x ≡ true
all-Member p [] h x m = elim m [ ]
all-Member p (y ∷ ys) h x (inl e) = rw e (ground arith)
all-Member p (y ∷ ys) h x (inr m) = all-Member p ys (ground arith) x m

pub not-true : (b : Bool) → not b ≡ true → b ≡ false
not-true b h = ground arith

pub Member-select :
    {R : Type 0} (p : R → Bool) (xs : List R) (x : R)
    → Member x (select p xs)
    → Member x xs × (p x ≡ true)
Member-select p [] x m = elim m [ ]
Member-select p (y ∷ ys) x m = elim (Bool-cases (p y)) [
  | inl yes_p ↦ elim (let m' : Member x (y ∷ select p ys) = rw yes_p at m in m') [
    | inl e ↦ (inl e, rw e yes_p)
    | inr rest ↦ let (a, b) = Member-select p ys x rest in (inr a, b)
  ]
  | inr no_p ↦
      let m' : Member x (select p ys) = rw no_p at m in
      let (a, b) = Member-select p ys x m' in (inr a, b)
]

pub select-Member :
    {R : Type 0} (p : R → Bool) (xs : List R) (x : R)
    → Member x xs
    → p x ≡ true
    → Member x (select p xs)
select-Member p [] x m h = elim m [ ]
select-Member p (y ∷ ys) x (inl e) h = let h' : p y ≡ true = rw e at h in rw h' (inl e)
select-Member p (y ∷ ys) x (inr m) h = elim (Bool-cases (p y)) [
  | inl yes_p ↦ rw yes_p (inr (select-Member p ys x m h))
  | inr no_p ↦ rw no_p (select-Member p ys x m h)
]

pub least_found :
    {R : Type 0} (before : R → R → Bool) (rows xs : List R) (r : R)
    → least before rows xs ≡ some r
    → Member r xs × ((x : R) → Member x rows → before x r ≡ false)
least_found before rows [] r h = absurd (cc)
least_found before rows (x ∷ xs) r h = elim (Bool-cases (all (λ y. not (before y x)) rows)) [
  | inl good ↦
      let same : x ≡ r = ground arith in
      (inl (sym same), λ y m. rw (← same) (not-true _ (all-Member _ rows good y m)))
  | inr bad ↦ let (a, b) = least_found before rows xs r (rw bad at h) in (inr a, b)
]

pub first_good :
    {R : Type 0} (ms : List R) (o : Option R) (r : R) → found_or ms o ≡ ok r → o ≡ some r
first_good [] o r h = absurd (cc)
first_good (x ∷ xs) none r h = absurd (cc)
first_good (x ∷ xs) (some y) r h = cc

pub first_bad :
    {R : Type 0} (ms : List R) (o : Option R) (e : Error)
    → found_or ms o ≡ err e
    → IsEngine e × (e ≡ record_not_found → ms ≡ [])
first_bad [] o e h = (subst IsEngine {x = record_not_found} (ground arith) tt, λ n. refl)
first_bad (x ∷ xs) none e h =
    (subst IsEngine {x = other "no order"} (ground arith) tt, λ n. absurd (cc))
first_bad (x ∷ xs) (some r) e h = absurd (cc)

pub insert_perm :
    {R : Type 0} (before : R → R → Bool) (x : R) (ys : List R) → Perm (insert before x ys) (x ∷ ys)
insert_perm before x [] = Perm.refl (x ∷ [])
insert_perm before x (y ∷ ys) = elim (Bool-cases (before y x)) [
  | inl later ↦ rw later (Perm.trans (Perm.cons y (insert_perm before x ys)) (Perm.swap x y ys))
  | inr here ↦ rw here (Perm.refl (x ∷ y ∷ ys))
]

pub sort_perm : {R : Type 0} (before : R → R → Bool) (xs : List R) → Perm (sort before xs) xs
sort_perm before [] = Perm.refl []
sort_perm before (x ∷ xs) =
    Perm.trans (insert_perm before x (sort before xs)) (Perm.cons x (sort_perm before xs))

pub in_order-IsOrdered :
    {R : Type 0} (before : R → R → Bool) (xs : List R)
    → in_order before xs ≡ true
    → IsOrdered before xs
in_order-IsOrdered before [] h = tt
in_order-IsOrdered before (x ∷ xs) h = (
  λ y m. not-true _ (all-Member (λ z. not (before z x)) xs (ground arith) y m),
  in_order-IsOrdered before xs (ground arith),
)

pub with_key_found :
    {R : Type 0} (id : R → String) (k : String) (rows : List R) (r : R)
    → with_key id k rows ≡ some r
    → Member r rows × (k ≡ id r)
with_key_found id k [] r h = absurd (cc)
with_key_found id k (x ∷ xs) r h = elim (Bool-cases (id x == k)) [
  | inl same ↦ let e : x ≡ r = ground arith in (inl (sym e), sym ((eq_iff _ _).0 same) ∙ ap id e)
  | inr differs ↦ let (a, b) = with_key_found id k xs r (rw differs at h) in (inr a, b)
]

pub with_key_missing :
    {R : Type 0} (id : R → String) (k : String) (rows : List R)
    → with_key id k rows ≡ none
    → (x : R) → Member x rows
    → id x ≢ k
with_key_missing id k [] h x m = absurd m
with_key_missing id k (y ∷ ys) h x m = elim (Bool-cases (id y == k)) [
  | inl same ↦ absurd (ground arith)
  | inr differs ↦ elim m [
    | inl e ↦ λ q. false≢true (sym differs ∙ (eq_iff _ _).1 (ap id (sym e) ∙ q))
    | inr rest ↦ with_key_missing id k ys (rw differs at h) x rest
  ]
]

pub by_key_found :
    {R : Type 0} (id : R → String) (fk : Option String) (rows : List R) (r : R)
    → by_key id fk rows ≡ some r
    → Member r rows × (fk ≡ some (id r))
by_key_found id none rows r h = absurd (cc)
by_key_found id (some k) rows r h =
    let (m, e) = with_key_found id k rows r h in (m, ap {B = Option String} some e)

pub added :
    {R : Type 0} (sc : Schema R) (r : R) (rows : List R) (r' : R) (rows' : List R)
    → add_row sc r rows ≡ ok (r', rows')
    → (r' ≡ r)
      × (rows' ≡ rows ++ sc.columns r' ∷ [])
      × ((x : R) → Member x rows → key sc x ≢ key sc r')
added {R} sc r rows r' rows' h = elim (Bool-cases (all (λ x. not (key sc x == key sc r)) rows)) [
  | inl fresh ↦
      let h' : ◌≡◌ {A = Result (R × List R)} (ok (r, rows ++ sc.columns r ∷ [])) (ok (r', rows')) =
        rw fresh at h in
      let same : r ≡ r' = cc in
      (
        sym same,
        rw (← same) (cc),
        λ x m e. false≢true (
            sym (not-true _ (all-Member _ rows fresh x m))
            ∙ (eq_iff _ _).1 (e ∙ ap (key sc) (sym same))),
      )
  | inr clash ↦ absurd (ground arith)
]

pub refused :
    {R : Type 0} (sc : Schema R) (r : R) (rows : List R) (e : Error)
    → add_row sc r rows ≡ err e
    → e ≡ other "duplicate key"
refused sc r rows e h = ground arith

pub IsEngine-error : (t : String) (e : Error) → e ≡ other t → IsEngine e × (e ≢ record_not_found)
IsEngine-error t e h = (subst⁻¹ IsEngine h tt, λ n. cc)

pub settled :
    {A : Type 0} (s : State ℕ) (p : Result A × State ℕ) (a : A) (s' : State ℕ)
    → settle s p ≡ (ok a, s')
    → p ≡ (ok a, s')
settled s (ok b, t) a s' h = h
settled s (err e, t) a s' h = absurd (cc (ap (λ (p : Result _ × State ℕ). p.0) h))

pub unsettled :
    {A : Type 0} (s : State ℕ) (p : Result A × State ℕ) (e : Error) (s' : State ℕ)
    → settle s p ≡ (err e, s')
    → (s'.db ≡ s.db) × (p.0 ≡ err e)
unsettled s (ok b, t) e s' h = absurd (cc (ap (λ (p : Result _ × State ℕ). p.0) h))
unsettled s (err x, t) e s' h =
    (sym (ap (λ (p : Result _ × State ℕ). p.1.db) h), ap (λ (p : Result _ × State ℕ). p.0) h)
