-- ===== src/Prelude/Lists.antt =====
-- Lists read as the rows of a table: membership, selection by a test, and the two ways in which a
-- table changes (a row added at the end, a row replaced by its key).
use Prim.Native.Nat.{ℕ, zero, suc}
use Prim.Native.String.{String}
use mathlib.Core.Path.{◌≡◌, refl, ap, sym, ◌∙◌}
use mathlib.Core.Logic.{◌≢◌, ◌⊎◌, inl, inr}
use mathlib.Core.Bool.{Bool, false, false≢true}
use mathlib.Core.List.{List, [], ◌∷◌, ◌++◌}
use native.Mathlib.Omega.{arith}
use text.Mathlib.Text.{◌==◌}
use text.Mathlib.TextEquality.{eq_iff}
use sociomile.Prelude.Tests.{if◌then◌else◌, Bool-cases}

abbrev pub length {ℓ} : {A : Type ℓ} → List A → ℕ
length [] = 0
length (x ∷ xs) = suc (length xs)

abbrev pub take {ℓ} : {A : Type ℓ} → ℕ → List A → List A
take zero xs = []
take (suc n) [] = []
take (suc n) (x ∷ xs) = x ∷ take n xs

abbrev pub drop {ℓ} : {A : Type ℓ} → ℕ → List A → List A
drop zero xs = xs
drop (suc n) [] = []
drop (suc n) (x ∷ xs) = drop n xs

module _ {R : Type 0} where
  abbrev pub Member : R → List R → Type 0
  Member r [] = ⊥
  Member r (x ∷ xs) = (r ≡ x) ⊎ Member r xs

  -- The rows that pass a test, in their order.
  abbrev pub select : (R → Bool) → List R → List R
  select p [] = []
  select p (x ∷ xs) = if p x then x ∷ select p xs else select p xs

  pub Member-append : (r : R) (xs ys : List R) → Member r (xs ++ ys) → Member r xs ⊎ Member r ys
  Member-append r [] ys h = inr h
  Member-append r (x ∷ xs) ys (inl e) = inl (inl e)
  Member-append r (x ∷ xs) ys (inr h) = elim (Member-append r xs ys h) [
    | inl m ↦ inl (inr m)
    | inr m ↦ inr m
  ]

  pub append-Member : (r : R) (xs : List R) → Member r (xs ++ r ∷ [])
  append-Member r [] = inl refl
  append-Member r (x ∷ xs) = inr (append-Member r xs)

  pub Member-append_left : (r : R) (xs ys : List R) → Member r xs → Member r (xs ++ ys)
  Member-append_left r [] ys h = elim h [ ]
  Member-append_left r (x ∷ xs) ys (inl e) = inl e
  Member-append_left r (x ∷ xs) ys (inr h) = inr (Member-append_left r xs ys h)

  pub length-append_one : (xs : List R) (r : R) → length (xs ++ r ∷ []) ≡ suc (length xs)
  length-append_one [] r = refl
  length-append_one (x ∷ xs) r = ap suc (length-append_one xs r)

  pub select-append_none :
      (p : R → Bool) (xs : List R) (r : R) → p r ≡ false → select p (xs ++ r ∷ []) ≡ select p xs
  select-append_none p [] r h = ground arith
  select-append_none p (x ∷ xs) r h = ground (arith, select-append_none p xs r h)

module _ {R : Type 0} (key : R → String) where
  -- `UPDATE` of the row with the key of `r`, and `INSERT` where there is none.
  abbrev pub upsert : R → List R → List R
  upsert r [] = r ∷ []
  upsert r (x ∷ xs) = if key x == key r then r ∷ xs else x ∷ upsert r xs

  -- No two rows have the same primary key.
  abbrev pub Unique : List R → Type 0
  Unique [] = Unit
  Unique (x ∷ xs) = ((y : R) → Member y xs → key y ≢ key x) × Unique xs

  pub Unique-append :
      (xs : List R) (r : R)
      → Unique xs
      → ((x : R) → Member x xs → key x ≢ key r)
      → Unique (xs ++ r ∷ [])
  Unique-append [] r u fresh = (λ y m. elim m [ ], tt)
  Unique-append (x ∷ xs) r (u, us) fresh = (
    λ y m. elim (Member-append y xs (r ∷ []) m) [
      | inl old ↦ u y old
      | inr new ↦ elim new [
        | inl e ↦ λ k. fresh x (inl refl) (sym k ∙ ap key e)
        | inr none ↦ absurd none
      ]
    ],
    Unique-append xs r us (λ y m. fresh y (inr m)),
  )

  pub Member-upsert :
      (r : R) (xs : List R) (y : R)
      → Unique xs
      → Member y (upsert r xs)
      → (y ≡ r) ⊎ (Member y xs × (key y ≢ key r))
  Member-upsert r [] y u (inl e) = inl e
  Member-upsert r [] y u (inr m) = absurd m
  Member-upsert r (x ∷ xs) y u m = elim (Bool-cases (key x == key r)) [
    | inl same ↦ elim (let m' : Member y (r ∷ xs) = rw same at m in m') [
      | inl e ↦ inl e
      | inr old ↦ inr (inr old, λ k. u.0 y old (k ∙ sym ((eq_iff _ _).0 same)))
    ]
    | inr other ↦ elim (let m' : Member y (x ∷ upsert r xs) = rw other at m in m') [
      | inl e ↦ inr (inl e, λ k. false≢true (sym other ∙ (eq_iff _ _).1 (ap key (sym e) ∙ k)))
      | inr rest ↦ elim (Member-upsert r xs y u.1 rest) [
        | inl e ↦ inl e
        | inr (old, k) ↦ inr (inr old, k)
      ]
    ]
  ]

  pub upsert-Member : (r : R) (xs : List R) → Member r (upsert r xs)
  upsert-Member r [] = inl refl
  upsert-Member r (x ∷ xs) = elim (Bool-cases (key x == key r)) [
    | inl same ↦ rw same (inl refl)
    | inr other ↦ rw other (inr (upsert-Member r xs))
  ]

  -- The last row is replaced, where no row before it has the key.
  pub upsert-append_last :
      (r c : R) (xs : List R)
      → ((x : R) → Member x xs → key x ≢ key r)
      → key c ≡ key r
      → upsert r (xs ++ c ∷ []) ≡ xs ++ r ∷ []
  upsert-append_last r c [] fresh same = rw ((eq_iff _ _).1 same) refl
  upsert-append_last r c (x ∷ xs) fresh same = elim (Bool-cases (key x == key r)) [
    | inl e ↦ absurd (fresh x (inl refl) ((eq_iff _ _).0 e))
    | inr other ↦
        rw other (ap (λ ys. x ∷ ys) (upsert-append_last r c xs (λ y m. fresh y (inr m)) same))
  ]

  pub Unique-upsert : (r : R) (xs : List R) → Unique xs → Unique (upsert r xs)
  Unique-upsert r [] u = (λ y m. elim m [ ], tt)
  Unique-upsert r (x ∷ xs) u = elim (Bool-cases (key x == key r)) [
    | inl same ↦ rw same (λ y m k. u.0 y m (k ∙ sym ((eq_iff _ _).0 same)), u.1)
    | inr other ↦ rw other (
      λ y m. elim (Member-upsert r xs y u.1 m) [
        | inl e ↦ λ k. false≢true (sym other ∙ (eq_iff _ _).1 (sym k ∙ ap key e))
        | inr (old, _) ↦ u.0 y old
      ],
      Unique-upsert r xs u.1,
    )
  ]

  pub Member-upsert_other :
      (r x : R) (xs : List R) → Member x xs → key x ≢ key r → Member x (upsert r xs)
  Member-upsert_other r x [] m n = elim m [ ]
  Member-upsert_other r x (y ∷ xs) m n = elim (Bool-cases (key y == key r)) [
    | inl same ↦ elim m [
      | inl e ↦ absurd (n (ap key e ∙ (eq_iff _ _).0 same))
      | inr old ↦ rw same (inr old)
    ]
    | inr other ↦ elim m [
      | inl e ↦ rw other (inl e)
      | inr old ↦ rw other (inr (Member-upsert_other r x xs old n))
    ]
  ]

  -- Two rows with one key are the same row.
  pub Unique-Member :
      (x y : R) (xs : List R) → Unique xs → Member x xs → Member y xs → key x ≡ key y → x ≡ y
  Unique-Member x y [] u m n e = elim m [ ]
  Unique-Member x y (z ∷ zs) u (inl p) (inl q) e = p ∙ sym q
  Unique-Member x y (z ∷ zs) u (inl p) (inr n) e = absurd (u.0 y n (sym e ∙ ap key p))
  Unique-Member x y (z ∷ zs) u (inr m) (inl q) e = absurd (u.0 x m (e ∙ ap key q))
  Unique-Member x y (z ∷ zs) u (inr m) (inr n) e = Unique-Member x y zs u.1 m n e

  -- Rows that fail a test, before and after, do not show in the selection.
  pub select-upsert :
      (p : R → Bool) (r : R) (xs : List R)
      → p r ≡ false
      → ((x : R) → Member x xs → key x ≡ key r → p x ≡ false)
      → select p (upsert r xs) ≡ select p xs
  select-upsert p r [] h all = rw h
  select-upsert p r (x ∷ xs) h all = elim (Bool-cases (key x == key r)) [
    | inl same ↦ rw same (rw (h, all x (inl refl) ((eq_iff _ _).0 same)) refl)
    | inr other ↦ rw other (rw (select-upsert p r xs h (λ y m. all y (inr m))) refl)
  ]

  pub length-upsert :
      (r : R) (xs : List R) (x : R) → Member x xs → key x ≡ key r → length (upsert r xs) ≡ length xs
  length-upsert r [] x m k = elim m [ ]
  length-upsert r (y ∷ xs) x m k = elim (Bool-cases (key y == key r)) [
    | inl same ↦ rw same
    | inr other ↦ elim m [
      | inl e ↦ absurd (false≢true (sym other ∙ (eq_iff _ _).1 (ap key (sym e) ∙ k)))
      | inr old ↦ rw other (ap suc (length-upsert r xs x old k))
    ]
  ]

module _ {R : Type 0} (key other : R → String) where
  -- A row that is replaced by one with the same value of another column.
  pub Unique-upsert_column :
      (r row : R) (xs : List R)
      → Unique key xs
      → Unique other xs
      → Member row xs
      → key row ≡ key r
      → other row ≡ other r
      → Unique other (upsert key r xs)
  Unique-upsert_column r row [] u v m k o = elim m [ ]
  Unique-upsert_column r row (x ∷ xs) u v m k o = elim (Bool-cases (key x == key r)) [
    | inl same ↦
        let x_row : row ≡ x =
          Unique-Member key row x (x ∷ xs) u m (inl refl) (k ∙ sym ((eq_iff _ _).0 same)) in
        rw same (λ y n e. v.0 y n (e ∙ (sym o ∙ ap other x_row)), v.1)
    | inr differs ↦
        let old : Member row xs = elim m [
          | inl e ↦ absurd (false≢true (sym differs ∙ (eq_iff _ _).1 (ap key (sym e) ∙ k)))
          | inr old ↦ old
        ] in
        rw differs (
          λ y n. elim (Member-upsert key r xs y u.1 n) [
            | inl e ↦ λ h. v.0 row old (o ∙ (sym (ap other e) ∙ h))
            | inr (kept, _) ↦ v.0 y kept
          ],
          Unique-upsert_column r row xs u.1 v.1 old k o,
        )
  ]
