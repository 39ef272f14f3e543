-- ===== src/Strconv/Colon.antt =====
-- The text that `fmt.Sprintf("%d", n)` prints has no colon, so that a text is not more than the number
-- where a colon follows it.
use Prim.Native.String.{[], ◌∷◌}
use Prim.Native.String
use Prim.Native.Char.{Char, code}
use text.Mathlib.TextLemmas.{cons-append, nil-append, head-eq_of_cons-eq, tail-eq_of_cons-eq}
use sociomile.Prelude.{
  ℕ, zero, suc, ◌/◌, ◌%◌, ◌+◌, ◌<◌, ℤ, pos, negsuc, decimal, digit, digits, ltb, eqb, String, ◌≡◌,
  refl, sym, ap, ◌∙◌, Bool, true, false, not, ◌&&◌, arith, Bool-cases, inl, inr,
}

-- No character of the text separates the parts of a key.
pub no_colon : String → Bool
no_colon [] = true
no_colon (c ∷ s) = not (eqb (code c) 58) && no_colon s

no_colon-char :
    (c : Char) (text : String)
    → eqb (code c) 58 ≡ false
    → no_colon (String.◌++◌ (c ∷ []) text) ≡ no_colon text
unfolding no_colon
no_colon-char c text h =
    ap no_colon (cons-append c [] text ∙ ap (λ s. c ∷ s) (nil-append text)) ∙ (rw h refl)

no_colon-digit :
    (d : ℕ) (text : String) → d < 10 → no_colon (String.◌++◌ (digit d) text) ≡ no_colon text
no_colon-digit zero text h = no_colon-char "0" text refl
no_colon-digit (suc zero) text h = no_colon-char "1" text refl
no_colon-digit (suc (suc zero)) text h = no_colon-char "2" text refl
no_colon-digit (suc (suc (suc zero))) text h = no_colon-char "3" text refl
no_colon-digit (suc (suc (suc (suc zero)))) text h = no_colon-char "4" text refl
no_colon-digit (suc (suc (suc (suc (suc zero))))) text h = no_colon-char "5" text refl
no_colon-digit (suc (suc (suc (suc (suc (suc zero)))))) text h = no_colon-char "6" text refl
no_colon-digit (suc (suc (suc (suc (suc (suc (suc zero))))))) text h = no_colon-char "7" text refl
no_colon-digit (suc (suc (suc (suc (suc (suc (suc (suc zero)))))))) text h =
    no_colon-char "8" text refl
no_colon-digit (suc (suc (suc (suc (suc (suc (suc (suc (suc zero))))))))) text h =
    no_colon-char "9" text refl
no_colon-digit (suc (suc (suc (suc (suc (suc (suc (suc (suc (suc d)))))))))) text h =
    absurd (omega arith)

no_colon-digits :
    (fuel n : ℕ) (text : String) → no_colon text ≡ true → no_colon (digits fuel n text) ≡ true
no_colon-digits zero n text h = h
no_colon-digits (suc fuel) n text h = elim (Bool-cases (ltb n 10)) [
  | inl small ↦ rw small (no_colon-digit n text (ground arith) ∙ h)
  | inr big ↦
      rw big (no_colon-digits fuel (n / 10) _ (no_colon-digit (n % 10) text (omega arith) ∙ h))
]

pub no_colon-decimal : (v : ℤ) → no_colon (decimal v) ≡ true
unfolding decimal no_colon
no_colon-decimal (pos n) = no_colon-digits 20 n "" refl
no_colon-decimal (negsuc n) =
    no_colon-char "-" (digits 20 (n + 1) "") refl ∙ no_colon-digits 20 (n + 1) "" refl

-- Where two texts have a colon after a part without one, the parts are the same.
pub colon_split :
    (a b x y : String)
    → no_colon a ≡ true
    → no_colon b ≡ true
    → String.◌++◌ a (String.◌++◌ ":" x) ≡ String.◌++◌ b (String.◌++◌ ":" y)
    → a ≡ b
unfolding no_colon
colon_split [] [] x y ha hb e = refl
colon_split [] (d ∷ b) x y ha hb e =
    let e' = sym (cons-append ":" [] x) ∙ (sym (nil-append _) ∙ (e ∙ cons-append d b _)) in
    let same : code ":" ≡ code d = ap code (head-eq_of_cons-eq e') in absurd (ground arith)
colon_split (c ∷ a) [] x y ha hb e =
    let e' = sym (cons-append c a _) ∙ (e ∙ (nil-append _ ∙ cons-append ":" [] y)) in
    let same : code c ≡ code ":" = ap code (head-eq_of_cons-eq e') in absurd (ground arith)
colon_split (c ∷ a) (d ∷ b) x y ha hb e =
    let e' = sym (cons-append c a _) ∙ (e ∙ cons-append d b _) in
    let rest = colon_split a b x y (ground arith) (ground arith) (tail-eq_of_cons-eq e') in
    λ i. head-eq_of_cons-eq e' i ∷ rest i
