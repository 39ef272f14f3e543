-- ===== src/Platform/Names.antt =====
-- Names of files: the order in which `sort.Strings` puts them, by their bytes in UTF-8, which is the
-- order of their code points, and `strings.HasSuffix`.
use Prim.Native.Char.{code}
use Prim.Native.String.{String, [], ◌∷◌}
use mathlib.Core.Path.{◌≡◌, refl}
use mathlib.Core.Bool.{Bool, true, false, ◌&&◌, ◌||◌}
use native.Mathlib.Omega.{arith}
use sociomile.Prelude.{ltb, eqb, ◌==◌}

-- `s <= t`
unfoldable pub at_most : String → String → Bool
at_most [] t = true
at_most (c ∷ s) [] = false
at_most (c ∷ s) (d ∷ t) = ltb (code c) (code d) || (eqb (code c) (code d) && at_most s t)

pub at_most_refl : (s : String) → at_most s s ≡ true
unfolding at_most
at_most_refl [] = refl
at_most_refl (c ∷ s) = ground (arith, at_most_refl s)

pub at_most_total : (s t : String) → at_most s t ≡ false → at_most t s ≡ true
unfolding at_most
at_most_total [] t h = ground arith
at_most_total (c ∷ s) [] h = refl
at_most_total (c ∷ s) (d ∷ t) h = ground (arith, at_most_total s t)

pub at_most_trans : (s t u : String) → at_most s t ≡ true → at_most t u ≡ true → at_most s u ≡ true
unfolding at_most
at_most_trans [] t u h k = refl
at_most_trans (c ∷ s) [] u h k = ground arith
at_most_trans (c ∷ s) (d ∷ t) [] h k = ground arith
at_most_trans (c ∷ s) (d ∷ t) (e ∷ u) h k = ground (arith, at_most_trans s t u)

-- `strings.HasSuffix(s, suffix)`
unfoldable pub has_suffix : String → String → Bool
has_suffix [] suffix = [] == suffix
has_suffix (c ∷ s) suffix = c ∷ s == suffix || has_suffix s suffix
