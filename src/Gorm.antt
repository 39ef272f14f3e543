-- ===== src/Gorm.antt =====
-- gorm.io/gorm and the database behind it: not part of the repository, so a parameter of the model.
-- `Gorm` has an operation for each kind of call in backend/internal/repository/store.go; each
-- works on the rows of one table and on the world (connection, clock, uuid source), and may fail.
-- `Gorm.Laws` states what the code relies on, as GORM and MySQL document it.
pub mod Paged
pub mod Laws
pub mod Session
pub mod Grows
use mathlib.Core.List.{Perm}
use sociomile.Prelude.{
  ℕ, ℤ, pos, String, ◌≡◌, Bool, false, Option, none, some, List, [], ◌∷◌, Member, select, take,
  drop,
}
use sociomile.Apperror.{Error, app}
use sociomile.Model.Schema.{Schema}
use sociomile.Exec.{Result, Exec}

-- `Where` and `Order`: `before a b` if `a` is listed before `b` whatever the order of the rows.
pub record Query (R : Type 0) : Type 0 where
  pub matches : R → Bool
  pub before : R → R → Bool

-- `Where` with no `Order`
abbrev pub unordered : {R : Type 0} → (R → Bool) → Query R
unordered p = record { matches = p; before = λ a b. false }

-- `Offset` and `Limit`
pub record Page : Type 0 where
  pub offset : ℤ
  pub limit : Option ℤ

abbrev pub whole : Page
whole = record { offset = pos 0; limit = none }

pub record Gorm (W : Type 0) : Type 1 where
  -- `Where(…).Order(…).First(&r)`
  pub first : {R : Type 0} → Query R → List R → W → Result R × W
  -- `Where(…).Order(…).Offset(…).Limit(…).Find(&rs)`
  pub find : {R : Type 0} → Query R → Page → List R → W → Result (List R) × W
  -- `Model(…).Where(…).Count(&n)`
  pub count : {R : Type 0} → (R → Bool) → List R → W → Result ℕ × W
  -- `Preload` of a belongs-to association, from its foreign key and the table it refers to
  pub preload : {R : Type 0} → (R → String) → Option String → List R → W → Result (Option R) × W
  -- `Create(&r)`: the record with what GORM fills in, and the table
  pub create : {R : Type 0} → Schema R → R → List R → W → Result (R × List R) × W
  -- `Save(&r)`
  pub save : {R : Type 0} → Schema R → R → List R → W → Result (R × List R) × W
  -- `Model(…).Where(…).Updates(…)`, with `time.Now()` for the values
  pub updates : {R : Type 0} → (R → Bool) → (ℕ → R → R) → List R → W → Result (List R) × W
  -- `Transaction(fn)`
  pub transaction : {A : Type 0} → Exec W A → Exec W A
  -- `time.Now()`
  pub now : W → ℕ × W

-- The errors of an engine are none of the application's.
abbrev pub IsEngine : Error → Type 0
IsEngine (app e) = ⊥
IsEngine _ = Unit

-- No row stands behind one that must come after it.
abbrev pub IsOrdered : {R : Type 0} → (R → R → Bool) → List R → Type 0
IsOrdered before [] = Unit
IsOrdered before (x ∷ xs) = ((y : _) → Member y xs → before y x ≡ false) × IsOrdered before xs

abbrev pub cut : {R : Type 0} → ℕ → Option ℕ → List R → List R
cut offset none xs = drop offset xs
cut offset (some limit) xs = take limit (drop offset xs)

-- The rows on a page of the rows that match, in an order that the query allows.
pub record IsPage {R : Type 0} (q : Query R) (offset : ℕ) (limit : Option ℕ) (rows xs : List R)
    : Type 0 where
  pub listed : List R
  pub same : Perm listed (select q.matches rows)
  pub ordered : IsOrdered q.before listed
  pub page : xs ≡ cut offset limit listed
