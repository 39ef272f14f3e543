-- ===== src/Prelude/Text.antt =====
-- `strings.TrimSpace` and `strings.EqualFold` of Go, over code points.
use Prim.Native.Char.{Char, code}
use Prim.Native.Nat.{ℕ, ◌+◌}
use mathlib.Core.Option.{Option, none, some}
use mathlib.Core.Option
use Prim.Native.String.{String, [], ◌∷◌}
use mathlib.Core.Path.{◌≡◌, refl}
use mathlib.Core.Logic.{inl, inr}
use mathlib.Core.Bool.{Bool, true, false, ◌&&◌, ◌||◌}
use sociomile.Prelude.Tests.{leb, eqb, if◌then◌else◌, Bool-cases}

-- `unicode.IsSpace`
pub is_space : Char → Bool
is_space ch =
    let c = code ch in
    (leb 9 c && leb c 13)
    || eqb c 32
    || eqb c 0x85
    || eqb c 0xa0
    || eqb c 0x1680
    || (leb 0x2000 c && leb c 0x200a)
    || eqb c 0x2028
    || eqb c 0x2029
    || eqb c 0x202f
    || eqb c 0x205f
    || eqb c 0x3000

trim_left : String → String
trim_left [] = []
trim_left (c ∷ s) = if is_space c then trim_left s else c ∷ s

-- A character is dropped when it is a space and nothing is left behind it.
drop_last_space : Char → String → String
drop_last_space c [] = if is_space c then [] else c ∷ []
drop_last_space c (d ∷ s) = c ∷ d ∷ s

trim_right : String → String
trim_right [] = []
trim_right (c ∷ s) = drop_last_space c (trim_right s)

unfoldable pub trim_space : String → String
unfolding is_space trim_left drop_last_space trim_right
trim_space s = trim_right (trim_left s)

-- `strings.SplitN(s, " ", 2)` where it has two parts: those around the first space.
unfoldable pub split_space : String → Option (String × String)
split_space [] = none
split_space (c ∷ s) =
    let rest = split_space s in
    if eqb (code c) 32 then some ([], s) else Option.map (λ p. (c ∷ p.0, p.1)) rest

-- `strings.EqualFold`, where one of the texts is of ASCII letters other than K and S, which no other
-- character folds to.
fold_code : ℕ → ℕ
fold_code n = if leb 65 n && leb n 90 then n + 32 else n

unfoldable pub equal_fold : String → String → Bool
unfolding fold_code
equal_fold [] [] = true
equal_fold [] (d ∷ t) = false
equal_fold (c ∷ s) [] = false
equal_fold (c ∷ s) (d ∷ t) = eqb (fold_code (code c)) (fold_code (code d)) && equal_fold s t

drop_last_space_idem :
    (c : Char) (s : String)
    → trim_right s ≡ s
    → trim_right (drop_last_space c s) ≡ drop_last_space c s
unfolding drop_last_space trim_right
drop_last_space_idem c [] h = elim (Bool-cases (is_space c)) [
  | inl space ↦ rw space
  | inr other ↦ rw (other, drop_last_space) (rw other)
]
drop_last_space_idem c (d ∷ s) h = rw h

trim_right_idem : (s : String) → trim_right (trim_right s) ≡ trim_right s
unfolding trim_right
trim_right_idem [] = refl
trim_right_idem (c ∷ s) = drop_last_space_idem c (trim_right s) (trim_right_idem s)

-- A text that does not begin with a space.
abbrev NoLead : String → Type 0
NoLead [] = Unit
NoLead (c ∷ s) = is_space c ≡ false

trim_left-NoLead : (s : String) → NoLead (trim_left s)
unfolding trim_left
trim_left-NoLead [] = tt
trim_left-NoLead (c ∷ s) = elim (Bool-cases (is_space c)) [
  | inl space ↦ rw space (trim_left-NoLead s)
  | inr other ↦ rw other other
]

NoLead-trim_left : (s : String) → NoLead s → trim_left s ≡ s
unfolding trim_left
NoLead-trim_left [] h = refl
NoLead-trim_left (c ∷ s) h = rw h

NoLead-drop_last_space : (c : Char) (s : String) → is_space c ≡ false → NoLead (drop_last_space c s)
unfolding drop_last_space
NoLead-drop_last_space c [] h = rw h h
NoLead-drop_last_space c (d ∷ s) h = h

NoLead-trim_right : (s : String) → NoLead s → NoLead (trim_right s)
unfolding trim_right
NoLead-trim_right [] h = tt
NoLead-trim_right (c ∷ s) h = NoLead-drop_last_space c (trim_right s) h

pub trim_space_idem : (s : String) → trim_space (trim_space s) ≡ trim_space s
trim_space_idem s =
    unfold trim_space in
    rw (NoLead-trim_left _ (NoLead-trim_right (trim_left s) (trim_left-NoLead s)))
      (trim_right_idem (trim_left s))

-- A space in front is not seen.
pub trim_space-cons :
    (c : Char) (s : String) → is_space c ≡ true → trim_space (c ∷ s) ≡ trim_space s
unfolding trim_space
trim_space-cons c s h = rw h
