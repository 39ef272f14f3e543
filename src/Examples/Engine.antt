-- ===== src/Examples/Engine.antt =====
-- A database engine in memory, which shows that what is assumed of GORM can hold and runs the
-- examples. Its world is a counter, for the clock and for new identifiers.
pub mod Facts
pub mod Laws
use Prim.Native.String
use sociomile.Prelude.{
  ℕ, zero, suc, ◌+◌, ℤ, pos, negsuc, String, Bool, true, false, not, ◌&&◌, Option, none, some, List,
  [], ◌∷◌, ◌++◌, map, ◌==◌, select, length, upsert, if◌then◌else◌,
}
use sociomile.Apperror.{Error, record_not_found, other}
use sociomile.Model.Schema.{Schema, key, created, saved}
use sociomile.Exec.{Result, ok, err, State, Exec}
use sociomile.Gorm.{Gorm, Query, Page, cut}

abbrev pub all : {R : Type 0} → (R → Bool) → List R → Bool
all p [] = true
all p (x ∷ xs) = p x && all p xs

-- The first row behind which no other must come.
abbrev pub least : {R : Type 0} → (R → R → Bool) → List R → List R → Option R
least before rows [] = none
least before rows (x ∷ xs) =
    if all (λ y. not (before y x)) rows then some x else least before rows xs

abbrev pub insert : {R : Type 0} → (R → R → Bool) → R → List R → List R
insert before x [] = x ∷ []
insert before x (y ∷ ys) = if before y x then y ∷ insert before x ys else x ∷ y ∷ ys

abbrev pub sort : {R : Type 0} → (R → R → Bool) → List R → List R
sort before [] = []
sort before (x ∷ xs) = insert before x (sort before xs)

abbrev pub in_order : {R : Type 0} → (R → R → Bool) → List R → Bool
in_order before [] = true
in_order before (x ∷ xs) = all (λ y. not (before y x)) xs && in_order before xs

abbrev pub nat_or_zero : ℤ → ℕ
nat_or_zero (pos n) = n
nat_or_zero (negsuc n) = 0

abbrev pub nat_option : Option ℤ → Option ℕ
nat_option none = none
nat_option (some (pos n)) = some n
nat_option (some (negsuc n)) = none

abbrev pub uuid : ℕ → String
uuid zero = "id"
uuid (suc n) = String.◌++◌ (uuid n) "+"

abbrev pub found_or : {R : Type 0} → List R → Option R → Result R
found_or [] o = err record_not_found
found_or (x ∷ xs) none = err (other "no order")
found_or (x ∷ xs) (some r) = ok r

abbrev pub with_key : {R : Type 0} → (R → String) → String → List R → Option R
with_key id k [] = none
with_key id k (x ∷ xs) = if id x == k then some x else with_key id k xs

abbrev pub by_key : {R : Type 0} → (R → String) → Option String → List R → Option R
by_key id none rows = none
by_key id (some k) rows = with_key id k rows

abbrev pub add_row : {R : Type 0} → Schema R → R → List R → Result (R × List R)
add_row sc r rows =
    if all (λ x. not (key sc x == key sc r)) rows
    then ok (r, rows ++ sc.columns r ∷ [])
    else err (other "duplicate key")

-- The state after a transaction: as the body leaves it, or as it was.
abbrev pub settle : {A : Type 0} → State ℕ → Result A × State ℕ → Result A × State ℕ
settle s (ok a, t) = (ok a, t)
settle s (err e, t) = (err e, record t { db = s.db })

abbrev pub engine : Gorm ℕ
engine = record {
  first = λ q rows w. (
    found_or (select q.matches rows)
        (least q.before (select q.matches rows) (select q.matches rows)),
    w,
  );
  find = λ q p rows w. (
    if in_order q.before (sort q.before (select q.matches rows))
        then ok (
            cut (nat_or_zero p.offset) (nat_option p.limit) (sort q.before (select q.matches rows)))
        else err (other "no order"),
    w,
  );
  count = λ p rows w. (ok (length (select p rows)), w);
  preload = λ id fk rows w. (ok (by_key id fk rows), w);
  create = λ sc r rows w. (add_row sc (created sc (uuid w) w r) rows, w + 1);
  save =
      λ sc r rows w. (ok (saved sc w r, upsert (key sc) (sc.columns (saved sc w r)) rows), w + 1);
  updates = λ p f rows w. (ok (map (λ r. if p r then f w r else r) rows), w + 1);
  transaction = λ m s. settle s (m s);
  now = λ w. (w, w + 1);
}
