-- ===== src/Utils/Decimal.antt =====
-- The decimal text of a number: its value, its digits, and that it is canonical.
use rspm.Common.{
  ℕ, zero, suc, ◌+◌, ◌-◌, ◌*◌, ◌/◌, ◌%◌, ◌<◌, ◌≡◌, refl, arith, true, List, [], ◌∷◌, length,
}
use rspm.Utils.{all_ascii_digits, digits_before, to_string}

-- The number that digits spell behind `n`.
abbrev pub value_from : ℕ → List ℕ → ℕ
value_from n [] = n
value_from n (d ∷ digits) = value_from (n * 10 + (d - 48)) digits

digits_before-value :
    (fuel n : ℕ) (tail : List ℕ)
    → n < fuel
    → value_from 0 (digits_before fuel n tail) ≡ value_from n tail
unfolding digits_before
digits_before-value zero n tail h = absurd (omega arith)
digits_before-value (suc fuel) n tail h =
    ground (arith, digits_before-value fuel (n / 10) ((48 + n % 10) ∷ tail))

digits_before-digits :
    (fuel n : ℕ) (tail : List ℕ)
    → all_ascii_digits tail ≡ true
    → all_ascii_digits (digits_before fuel n tail) ≡ true
unfolding digits_before
digits_before-digits zero n tail h = h
digits_before-digits (suc fuel) n tail h =
    ground (arith, digits_before-digits fuel (n / 10) ((48 + n % 10) ∷ tail))

digits_before-length :
    (fuel n : ℕ) (tail : List ℕ) → length tail < length (digits_before (suc fuel) n tail)
unfolding digits_before
digits_before-length zero n tail = ground arith
digits_before-length (suc fuel) n tail =
    ground (arith, digits_before-length fuel (n / 10) ((48 + n % 10) ∷ tail))

pub value-to_string : (n : ℕ) → value_from 0 (to_string n) ≡ n
unfolding to_string
value-to_string n = digits_before-value (suc n) n [] (omega arith)

pub to_string-digits : (n : ℕ) → all_ascii_digits (to_string n) ≡ true
unfolding to_string
to_string-digits n = digits_before-digits (suc n) n [] refl

pub to_string-nonempty : (n : ℕ) → 0 < length (to_string n)
unfolding to_string
to_string-nonempty n = digits_before-length n n []
