-- ===== src/Utils.antt =====
-- utils/helpers.rs: the canonical texts; and the decimal text of a number as the standard library
-- prints it. Texts are lists of bytes.
pub mod Decimal
pub mod Canonical
pub mod Examples
use rspm.Common.{
  ℕ, zero, suc, ◌+◌, ◌/◌, ◌%◌, Bool, true, false, not, ◌&&◌, ◌||◌, ◌==◌, List, [], ◌∷◌, length, ltb,
  leb, if◌then◌else◌,
}

abbrev pub is_ascii_digit : ℕ → Bool
is_ascii_digit b = leb 48 b && leb b 57

abbrev pub all_ascii_digits : List ℕ → Bool
all_ascii_digits [] = true
all_ascii_digits (b ∷ bytes) = is_ascii_digit b && all_ascii_digits bytes

abbrev pub starts_with_zero : List ℕ → Bool
starts_with_zero [] = false
starts_with_zero (b ∷ bytes) = b == 48

unfoldable pub canonical_unsigned_integer_text : List ℕ → Bool
canonical_unsigned_integer_text value =
    not (length value == 0)
    && all_ascii_digits value
    && (length value == 1 || not (starts_with_zero value))

-- `value.split('.')`: the first part and the others.
abbrev pub split_dots : List ℕ → List ℕ × List (List ℕ)
split_dots [] = ([], [])
split_dots (b ∷ bytes) =
    let (part, parts) = split_dots bytes in
    if b == 46 then ([], part ∷ parts) else (b ∷ part, parts)

abbrev fraction_is_valid : List (List ℕ) → Bool
fraction_is_valid [] = true
fraction_is_valid (fraction ∷ []) = not (length fraction == 0) && all_ascii_digits fraction
fraction_is_valid (fraction ∷ more ∷ parts) = false

unfoldable pub canonical_nonnegative_decimal_text : List ℕ → Bool
unfolding canonical_unsigned_integer_text
canonical_nonnegative_decimal_text value =
    let (whole, parts) = split_dots value in
    canonical_unsigned_integer_text whole && fraction_is_valid parts

-- The digits of a number before `tail`, the last one first; one round for each digit.
unfoldable pub digits_before : ℕ → ℕ → List ℕ → List ℕ
digits_before zero n tail = tail
digits_before (suc fuel) n tail =
    let longer = (48 + n % 10) ∷ tail in
    let more = digits_before fuel (n / 10) longer in if ltb n 10 then longer else more

-- `to_string()` of an unsigned number.
unfoldable pub to_string : ℕ → List ℕ
unfolding digits_before
to_string n = digits_before (suc n) n []
