-- ===== src/Strconv.antt =====
-- `strconv.Atoi` of Go, for the 64-bit `int` on which the images of backend/Dockerfile run.
pub mod Decimal
pub mod Colon
use Prim.Native.Char.{code}
use Prim.Native.String.{[], ◌∷◌}
use sociomile.Prelude.{
  ℕ, zero, suc, ◌+◌, ◌-◌, ◌*◌, ℤ, pos, negsuc, String, Bool, ◌&&◌, Option, none, some, leb, ltb,
  eqb, if◌then◌else◌,
}

-- The value of the digits behind those of value `n`.
unfoldable pub read_digits : ℕ → String → Option ℕ
read_digits n [] = some n
read_digits n (c ∷ s) =
    let rest = read_digits (n * 10 + (code c - 48)) s in
    if leb 48 (code c) && leb (code c) 57 then rest else none

-- At least one digit.
abbrev pub unsigned : String → Option ℕ
unfolding read_digits
unsigned [] = none
unsigned (c ∷ s) = read_digits 0 (c ∷ s)

-- -(2 ^ 63) … 2 ^ 63 - 1
abbrev pub positive : Option ℕ → Option ℤ
positive none = none
positive (some n) = if ltb n 9_223_372_036_854_775_808 then some (pos n) else none

abbrev pub negated : ℕ → ℤ
negated zero = pos zero
negated (suc n) = negsuc n

abbrev pub negative : Option ℕ → Option ℤ
negative none = none
negative (some n) = if leb n 9_223_372_036_854_775_808 then some (negated n) else none

-- `Atoi`, none where it returns an error
unfoldable pub atoi : String → Option ℤ
unfolding unsigned
atoi [] = none
atoi (c ∷ s) =
    if eqb (code c) 45
    then negative (unsigned s)
    else if eqb (code c) 43
    then positive (unsigned s)
    else positive (unsigned (c ∷ s))
