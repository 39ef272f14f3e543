-- ===== src/Cache/Keys.antt =====
-- backend/internal/cache/cache.go and the lists of backend/internal/service: keys of the cache that carry
-- different versions are different.
use Prim.Native.String
use text.Mathlib.TextLemmas.{append-nil, append_assoc, append_cancel_left}
use sociomile.Prelude.{ℤ, decimal, String, ◌≡◌, sym, ap, ◌∙◌, some, List, [], ◌∷◌}
use sociomile.Strconv.{atoi}
use sociomile.Strconv.Decimal.{IsInt, atoi-decimal}
use sociomile.Strconv.Colon.{no_colon-decimal, colon_split}
use sociomile.Cache.{join_from, join, key}

some_injective : {A : Type 0} (a b : A) → some a ≡ some b → a ≡ b
some_injective a b h = cc

-- What `join` puts behind the text so far.
abbrev pub behind : List String → String
behind [] = ""
behind (p ∷ ps) = String.◌++◌ ":" (String.◌++◌ p (behind ps))

join_from_lem : (r : String) (ps : List String) → join_from r ps ≡ String.◌++◌ r (behind ps)
join_from_lem r [] = sym (append-nil r)
join_from_lem r (p ∷ ps) =
    join_from_lem (String.◌++◌ (String.◌++◌ r ":") p) ps
    ∙ (append_assoc (String.◌++◌ r ":") p (behind ps)
        ∙ append_assoc r ":" (String.◌++◌ p (behind ps)))

-- A key, as its parts with a colon before each.
pub key_lem :
    (p : String) (ps : List String) → key (p ∷ ps) ≡ String.◌++◌ "sociomile" (behind (p ∷ ps))
unfolding key join
key_lem p ps =
    ap (λ t. String.◌++◌ "sociomile:" t) (join_from_lem p ps)
    ∙ append_assoc "sociomile" ":" (String.◌++◌ p (behind ps))

-- A key that has the version as a part, in front of other parts.
abbrev pub versioned : String → ℤ → String → List String → String
versioned r v p ps =
    String.◌++◌ "sociomile:" (join_from (String.◌++◌ r (String.◌++◌ "v" (decimal v))) (p ∷ ps))

pub versioned_injective :
    (r p p' : String) (ps ps' : List String) (v v' : ℤ)
    → IsInt v
    → IsInt v'
    → versioned r v p ps ≡ versioned r v' p' ps'
    → v ≡ v'
versioned_injective r p p' ps ps' v v' fits fits' e =
    some_injective v v' (sym (atoi-decimal v fits) ∙ (ap atoi texts ∙ atoi-decimal v' fits'))
  where
    spread :
        (n : ℤ) (q : String) (qs : List String)
        → join_from (String.◌++◌ r (String.◌++◌ "v" (decimal n))) (q ∷ qs)
          ≡ String.◌++◌ r (
              String.◌++◌ "v"
                (String.◌++◌ (decimal n) (String.◌++◌ ":" (String.◌++◌ q (behind qs)))))
    spread n q qs =
        join_from_lem _ (q ∷ qs)
        ∙ (append_assoc r _ _ ∙ ap (λ s. String.◌++◌ r s) (append_assoc "v" (decimal n) _))

    texts : decimal v ≡ decimal v'
    texts = colon_split (decimal v) (decimal v') _ _ (no_colon-decimal v) (no_colon-decimal v') (
        append_cancel_left "v" _ _ (
          append_cancel_left r _ _
            (sym (spread v p ps) ∙ (append_cancel_left "sociomile:" _ _ e ∙ spread v' p' ps'))))
