-- ===== src/Strconv/Decimal.antt =====
-- A number that `fmt.Sprintf("%d", n)` prints is the number that `Atoi` reads.
use Prim.Native.String.{[], ◌∷◌}
use Prim.Native.String
use Prim.Native.Char.{Char, code}
use text.Mathlib.TextLemmas.{cons-append, nil-append, nil≢cons, head-eq_of_cons-eq}
use sociomile.Prelude.{
  ℕ, zero, suc, ◌+◌, ◌-◌, ◌*◌, ◌/◌, ◌%◌, ◌<◌, ◌≤◌, ℤ, pos, negsuc, decimal, digit, digits, String,
  subst⁻¹, ◌≢◌, ◌⊎◌, ◌≡◌, refl, ap, ◌∙◌, true, ◌&&◌, some, leb, ltb, arith, Bool-cases, inl, inr,
}
use sociomile.Strconv.{read_digits, unsigned, positive, negative, atoi}

pow10 : ℕ → ℕ
pow10 zero = 1
pow10 (suc n) = 10 * pow10 n

read_digits-char :
    (n : ℕ) (c : Char) (text : String)
    → (leb 48 (code c) && leb (code c) 57) ≡ true
    → read_digits n (String.◌++◌ (c ∷ []) text) ≡ read_digits (n * 10 + (code c - 48)) text
unfolding read_digits
read_digits-char n c text h =
    ap (λ s. read_digits n s) (cons-append c [] text ∙ ap (λ s. c ∷ s) (nil-append text))
    ∙ (rw h refl)

read_digits-digit :
    (n d : ℕ) (text : String)
    → d < 10
    → read_digits n (String.◌++◌ (digit d) text) ≡ read_digits (n * 10 + d) text
read_digits-digit n zero text h = read_digits-char n "0" text refl
read_digits-digit n (suc zero) text h = read_digits-char n "1" text refl
read_digits-digit n (suc (suc zero)) text h = read_digits-char n "2" text refl
read_digits-digit n (suc (suc (suc zero))) text h = read_digits-char n "3" text refl
read_digits-digit n (suc (suc (suc (suc zero)))) text h = read_digits-char n "4" text refl
read_digits-digit n (suc (suc (suc (suc (suc zero))))) text h = read_digits-char n "5" text refl
read_digits-digit n (suc (suc (suc (suc (suc (suc zero)))))) text h =
    read_digits-char n "6" text refl
read_digits-digit n (suc (suc (suc (suc (suc (suc (suc zero))))))) text h =
    read_digits-char n "7" text refl
read_digits-digit n (suc (suc (suc (suc (suc (suc (suc (suc zero)))))))) text h =
    read_digits-char n "8" text refl
read_digits-digit n (suc (suc (suc (suc (suc (suc (suc (suc (suc zero))))))))) text h =
    read_digits-char n "9" text refl
read_digits-digit n (suc (suc (suc (suc (suc (suc (suc (suc (suc (suc d)))))))))) text h =
    absurd (omega arith)

read_digits-digits :
    (fuel n : ℕ) (text : String)
    → n < pow10 fuel
    → read_digits 0 (digits fuel n text) ≡ read_digits n text
unfolding pow10
read_digits-digits zero n text h = ap (λ m. read_digits m text) (omega arith)
read_digits-digits (suc fuel) n text h = elim (Bool-cases (ltb n 10)) [
  | inl small ↦
      rw small
        (read_digits-digit 0 n text (ground arith) ∙ ap (λ m. read_digits m text) (omega arith))
  | inr big ↦ rw big (
      read_digits-digits fuel (n / 10) (String.◌++◌ (digit (n % 10)) text) (omega arith)
      ∙ (read_digits-digit (n / 10) (n % 10) text (omega arith)
          ∙ ap (λ m. read_digits m text) (omega arith)))
]

-- A text that begins with a digit.
record IsNumeral (s : String) : Type 0 where
  first : Char
  rest : String
  parts : s ≡ first ∷ rest
  is_digit : (leb 48 (code first) && leb (code first) 57) ≡ true

digit_char :
    (c : Char) (text : String)
    → (leb 48 (code c) && leb (code c) 57) ≡ true
    → IsNumeral (String.◌++◌ (c ∷ []) text)
digit_char c text h = record {
  first = c;
  rest = text;
  parts = cons-append c [] text ∙ ap (λ s. c ∷ s) (nil-append text);
  is_digit = h;
}

digit-IsNumeral : (d : ℕ) (text : String) → d < 10 → IsNumeral (String.◌++◌ (digit d) text)
digit-IsNumeral zero text h = digit_char "0" text refl
digit-IsNumeral (suc zero) text h = digit_char "1" text refl
digit-IsNumeral (suc (suc zero)) text h = digit_char "2" text refl
digit-IsNumeral (suc (suc (suc zero))) text h = digit_char "3" text refl
digit-IsNumeral (suc (suc (suc (suc zero)))) text h = digit_char "4" text refl
digit-IsNumeral (suc (suc (suc (suc (suc zero))))) text h = digit_char "5" text refl
digit-IsNumeral (suc (suc (suc (suc (suc (suc zero)))))) text h = digit_char "6" text refl
digit-IsNumeral (suc (suc (suc (suc (suc (suc (suc zero))))))) text h = digit_char "7" text refl
digit-IsNumeral (suc (suc (suc (suc (suc (suc (suc (suc zero)))))))) text h =
    digit_char "8" text refl
digit-IsNumeral (suc (suc (suc (suc (suc (suc (suc (suc (suc zero))))))))) text h =
    digit_char "9" text refl
digit-IsNumeral (suc (suc (suc (suc (suc (suc (suc (suc (suc (suc d)))))))))) text h =
    absurd (omega arith)

digits-IsNumeral :
    (fuel n : ℕ) (text : String)
    → n < pow10 fuel
    → n ≢ 0 ⊎ IsNumeral text
    → IsNumeral (digits fuel n text)
unfolding pow10
digits-IsNumeral zero n text h (inl k) = absurd (k (omega arith))
digits-IsNumeral zero n text h (inr k) = k
digits-IsNumeral (suc fuel) n text h k = elim (Bool-cases (ltb n 10)) [
  | inl small ↦ rw small (digit-IsNumeral n text (ground arith))
  | inr big ↦ rw big (
      digits-IsNumeral fuel (n / 10) _ (omega arith)
        (inr (digit-IsNumeral (n % 10) text (omega arith))))
]

numeral : (fuel n : ℕ) → n < pow10 (suc fuel) → IsNumeral (digits (suc fuel) n "")
unfolding pow10
numeral fuel n h = elim (Bool-cases (ltb n 10)) [
  | inl small ↦ rw small (digit-IsNumeral n "" (ground arith))
  | inr big ↦ rw big (
      digits-IsNumeral fuel (n / 10) _ (omega arith)
        (inr (digit-IsNumeral (n % 10) "" (omega arith))))
]

numeral_read : (s : String) (n : ℕ) → IsNumeral s → read_digits 0 s ≡ some n → unsigned s ≡ some n
unfolding read_digits
numeral_read [] n k h = absurd (nil≢cons k.parts)
numeral_read (c ∷ s) n k h = h

numeral_atoi : (s : String) → IsNumeral s → atoi s ≡ positive (unsigned s)
unfolding atoi
numeral_atoi [] k = absurd (nil≢cons k.parts)
numeral_atoi (c ∷ s) k =
    (let same = head-eq_of_cons-eq k.parts in
      let d : (leb 48 (code c) && leb (code c) 57) ≡ true =
        (subst⁻¹ (λ x. (leb 48 (code x) && leb (code x) 57) ≡ true) same k.is_digit) in
      ground (arith))

-- An `int`: from -(2 ^ 63) to 2 ^ 63 - 1.
abbrev pub IsInt : ℤ → Type 0
IsInt (pos n) = n < 9_223_372_036_854_775_808
IsInt (negsuc n) = n < 9_223_372_036_854_775_808

bound : (n : ℕ) → n ≤ 9_223_372_036_854_775_808 → n < pow10 20
unfolding pow10
bound n h = omega arith

digits_read : (n : ℕ) → n ≤ 9_223_372_036_854_775_808 → unsigned (digits 20 n "") ≡ some n
unfolding read_digits
digits_read n h =
    numeral_read _ n (numeral 19 n (bound n h)) (read_digits-digits 20 n "" (bound n h))

minus : (s : String) → atoi (String.◌++◌ "-" s) ≡ negative (unsigned s)
unfolding atoi
minus s = ap atoi (cons-append "-" [] s ∙ ap (λ t. "-" ∷ t) (nil-append s))

-- The text of an `int` is read back as that `int`.
pub atoi-decimal : (n : ℤ) → IsInt n → atoi (decimal n) ≡ some n
unfolding decimal
atoi-decimal (pos n) h =
    let h' : n ≤ 9_223_372_036_854_775_808 = omega arith in
    rw (numeral_atoi _ (numeral 19 n (bound n h')), digits_read n h') (ground arith)
atoi-decimal (negsuc n) h =
    let h' : n + 1 ≤ 9_223_372_036_854_775_808 = omega arith in
    let e : n + 1 ≡ suc n = omega arith in rw (minus, digits_read (n + 1) h', e) (ground arith)
