-- ===== src/Utils/Canonical.antt =====
-- The canonical integer texts are those that the print of a number yields.
use rspm.Common.{
  ℕ, zero, suc, ◌+◌, ◌-◌, ◌*◌, ◌/◌, ◌%◌, ◌≤◌, ◌<◌, ◌≡◌, refl, ◌∙◌, arith, true, false, List, [],
  ◌∷◌, ◌++◌, length,
}
use mathlib.Core.List.{append-nil}
use rspm.Utils.{
  is_ascii_digit, all_ascii_digits, starts_with_zero, canonical_unsigned_integer_text,
  digits_before, to_string,
}
use rspm.Utils.Decimal.{value_from, to_string-digits, to_string-nonempty}

digits_before-fuel :
    (f g n : ℕ) (tail : List ℕ) → n < f → n < g → digits_before f n tail ≡ digits_before g n tail
unfolding digits_before
digits_before-fuel zero g n tail hf hg = absurd (omega arith)
digits_before-fuel (suc f) zero n tail hf hg = absurd (omega arith)
digits_before-fuel (suc f) (suc g) n tail hf hg =
    ground (arith, digits_before-fuel f g (n / 10) ((48 + n % 10) ∷ tail))

-- One more digit is one more round, where the number has digits already.
digits_before-push :
    (f g n d : ℕ) (tail : List ℕ)
    → 0 < n
    → is_ascii_digit d ≡ true
    → n * 10 + (d - 48) < f
    → n < g
    → digits_before f (n * 10 + (d - 48)) tail ≡ digits_before g n (d ∷ tail)
unfolding digits_before
digits_before-push zero g n d tail p h hf hg = absurd (omega arith)
digits_before-push (suc f) g n d tail p h hf hg = ground (
  arith,
  digits_before-fuel f g n (d ∷ tail),
  (let e : (n * 10 + (d - 48)) / 10 ≡ n = ground arith in e),
  (let e : 48 + (n * 10 + (d - 48)) % 10 ≡ d = ground arith in e),
)

le-value_from : (n : ℕ) (digits : List ℕ) → n ≤ value_from n digits
le-value_from n [] = omega arith
le-value_from n (d ∷ digits) = omega (arith, le-value_from (n * 10 + (d - 48)) digits)

digits_before-value_from :
    (f g n : ℕ) (digits tail : List ℕ)
    → 0 < n
    → all_ascii_digits digits ≡ true
    → value_from n digits < f
    → n < g
    → digits_before f (value_from n digits) tail ≡ digits_before g n (digits ++ tail)
digits_before-value_from f g n [] tail p h hf hg = digits_before-fuel f g n tail hf hg
digits_before-value_from f g n (d ∷ digits) tail p h hf hg =
    digits_before-value_from f (suc (n * 10 + (d - 48))) (n * 10 + (d - 48)) digits tail
      (omega arith) (ground arith) hf (omega arith)
    ∙ digits_before-push (suc (n * 10 + (d - 48))) g n d (digits ++ tail) p (ground arith)
        (omega arith) hg

digits_before-leads :
    (fuel n : ℕ) (tail : List ℕ)
    → 0 < n
    → n < fuel
    → starts_with_zero (digits_before fuel n tail) ≡ false
unfolding digits_before
digits_before-leads zero n tail p h = absurd (omega arith)
digits_before-leads (suc fuel) n tail p h =
    ground (arith, digits_before-leads fuel (n / 10) ((48 + n % 10) ∷ tail))

digits_before-single :
    (f d : ℕ) (tail : List ℕ)
    → is_ascii_digit d ≡ true
    → digits_before (suc f) (d - 48) tail ≡ d ∷ tail
unfolding digits_before
digits_before-single f d tail h = ground arith

to_string-leads : (n : ℕ) → 0 < n → starts_with_zero (to_string n) ≡ false
unfolding to_string
to_string-leads n p = digits_before-leads (suc n) n [] p (omega arith)

length-to_string_zero : length (to_string 0) ≡ 1
unfolding to_string
length-to_string_zero = refl

-- The print of every number is canonical.
pub to_string-canonical : (n : ℕ) → canonical_unsigned_integer_text (to_string n) ≡ true
unfolding canonical_unsigned_integer_text
to_string-canonical zero = ground (arith, to_string-digits 0, length-to_string_zero)
to_string-canonical (suc n) = ground (
  arith,
  to_string-digits (suc n),
  to_string-nonempty (suc n),
  to_string-leads (suc n) (omega arith),
)

first_digit : (n : ℕ) → 0 * 10 + n ≡ n
first_digit n = omega arith

-- A canonical text is the print of the number that its digits spell.
pub to_string-value :
    (value : List ℕ)
    → canonical_unsigned_integer_text value ≡ true
    → to_string (value_from 0 value) ≡ value
unfolding canonical_unsigned_integer_text to_string
to_string-value [] h = ground arith
to_string-value (d ∷ []) h = ground (arith, digits_before-single (d - 48) d [])
to_string-value (d ∷ e ∷ digits) h = rw (first_digit (d - 48)) (
    rw
      (
        digits_before-value_from (suc (value_from (d - 48) (e ∷ digits))) (suc (d - 48)) (d - 48)
            (e ∷ digits) [] (ground arith) (ground arith) (omega arith) (omega arith),
        append-nil,
      )
      (digits_before-single (d - 48) d (e ∷ digits) (ground arith)))
