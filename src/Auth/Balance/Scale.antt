-- ===== src/Auth/Balance/Scale.antt =====
-- The scaled text of an amount in base units spells that amount.
use rspm.Common.{
  ℕ, zero, suc, ◌+◌, ◌-◌, ◌*◌, ◌/◌, ◌%◌, ◌^◌, ◌≤◌, ◌<◌, ◌≡◌, refl, sym, ◌∙◌, arith, true, List, [],
  ◌∷◌, ◌++◌, length,
}
use mathlib.Core.Path.{ap₂}
use native.Mathlib.Nat.{pow-suc}
use rspm.Utils.{all_ascii_digits, canonical_unsigned_integer_text, digits_before, to_string}
use rspm.Utils.Decimal.{value_from, value-to_string, to_string-digits}
use rspm.Utils.Canonical.{to_string-canonical}
use rspm.Auth.Balance.{zeros, collateral_text}

value_from-append :
    (n : ℕ) (xs ys : List ℕ) → value_from n (xs ++ ys) ≡ value_from (value_from n xs) ys
value_from-append n [] ys = refl
value_from-append n (x ∷ xs) ys = value_from-append (n * 10 + (x - 48)) xs ys

shift_step : (n e p v : ℕ) → (n * 10 + e) * p + v ≡ n * (p * 10) + ((0 * 10 + e) * p + v)
shift_step n e p v = grind arith

value_from-shift : (n : ℕ) (ds : List ℕ) → value_from n ds ≡ n * 10 ^ length ds + value_from 0 ds
value_from-shift n [] = omega arith
value_from-shift n (d ∷ ds) =
    value_from-shift (n * 10 + (d - 48)) ds
    ∙ shift_step n (d - 48) (10 ^ length ds) (value_from 0 ds)
    ∙ sym
        (ap₂ (λ p v. n * p + v) (pow-suc 10 (length ds)) (value_from-shift (0 * 10 + (d - 48)) ds))

value_from-zeros : (count : ℕ) (ds : List ℕ) → value_from 0 (zeros count ++ ds) ≡ value_from 0 ds
value_from-zeros zero ds = refl
value_from-zeros (suc count) ds = value_from-zeros count ds

length-digits_before :
    (fuel k n : ℕ) (tail : List ℕ)
    → n < fuel
    → n < 10 ^ suc k
    → length (digits_before fuel n tail) ≤ suc k + length tail
unfolding digits_before
length-digits_before zero k n tail h b = absurd (omega arith)
length-digits_before (suc fuel) zero n tail h b = ground (arith, pow-suc 10 0)
length-digits_before (suc fuel) (suc k) n tail h b =
    ground (arith, pow-suc 10 (suc k), length-digits_before fuel k (n / 10) ((48 + n % 10) ∷ tail))

length-zeros : (count : ℕ) (ds : List ℕ) → length (zeros count ++ ds) ≡ count + length ds
length-zeros zero ds = omega arith
length-zeros (suc count) ds = omega (arith, length-zeros count ds)

zeros-digits :
    (count : ℕ) (ds : List ℕ)
    → all_ascii_digits ds ≡ true
    → all_ascii_digits (zeros count ++ ds) ≡ true
zeros-digits zero ds h = h
zeros-digits (suc count) ds h = zeros-digits count ds h

length-to_string_six : (n : ℕ) → n < 1000000 → length (to_string n) ≤ 6
unfolding to_string
length-to_string_six n h = omega (arith, length-digits_before (suc n) 5 n [] (omega arith) h)

-- The six digits of a fraction.
abbrev six_digits : ℕ → List ℕ
six_digits n = zeros (6 - length (to_string n)) ++ to_string n

length-six_digits : (n : ℕ) → n < 1000000 → length (six_digits n) ≡ 6
length-six_digits n h =
    omega (arith, length-zeros (6 - length (to_string n)) (to_string n), length-to_string_six n h)

value_from-six_digits : (m n : ℕ) → n < 1000000 → value_from m (six_digits n) ≡ m * 1000000 + n
value_from-six_digits m n h =
    value_from-shift m (six_digits n)
    ∙ ap₂ (λ k v. m * 10 ^ k + v) (length-six_digits n h)
        (value_from-zeros (6 - length (to_string n)) (to_string n) ∙ value-to_string n)

-- The text of an amount in base units is a canonical whole number, a point and exactly six digits,
-- and the digits of both spell the amount.
pub collateral_text-exact :
    (raw : ℕ)
    → (whole : List ℕ) × (fraction : List ℕ) × (collateral_text raw ≡ whole ++ 46 ∷ fraction)
      × (canonical_unsigned_integer_text whole ≡ true)
      × (all_ascii_digits fraction ≡ true)
      × (length fraction ≡ 6)
      × (value_from 0 (whole ++ fraction) ≡ raw)
unfolding collateral_text
collateral_text-exact raw = (
  to_string (raw / 1000000),
  six_digits (raw % 1000000),
  refl,
  to_string-canonical (raw / 1000000),
  zeros-digits (6 - length (to_string (raw % 1000000))) _ (to_string-digits (raw % 1000000)),
  length-six_digits (raw % 1000000) (omega arith),
  value_from-append 0 (to_string (raw / 1000000)) (six_digits (raw % 1000000))
      ∙ value_from-six_digits _ (raw % 1000000) (omega arith)
      ∙ omega (arith, value-to_string (raw / 1000000)),
)
