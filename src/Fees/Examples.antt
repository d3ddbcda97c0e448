-- ===== src/Fees/Examples.antt =====
-- Decimals as a mantissa and a scale: 100 shares at 0.5 with the rate 0.07 and the exponent 2.
use rspm.Common.{
  ℕ, zero, suc, ◌+◌, ◌-◌, ◌*◌, ◌^◌, ◌≤◌, ◌≡◌, refl, arith, Option, none, some, ◌⊎◌, if◌then◌else◌,
  leb, ltb,
}
use rspm.Fees.{
  Arithmetic, FeeCalculator, fee, refused, non_positive_shares, arithmetic_overflow, pow_loop,
  checked_pow, curve_fee, taker_fee,
}
use rspm.Fees.Taker.{taker_fee_lem}

abbrev Mantissa : Type 0
Mantissa = ℕ × ℕ

abbrev max_mantissa : ℕ
max_mantissa = 79228162514264337593543950335

abbrev bounded : Mantissa → Option Mantissa
bounded (m, s) = if leb m max_mantissa then some (m, s) else none

abbrev arithmetic : Arithmetic Mantissa
arithmetic = record {
  lt = λ (a, s) (b, t). ltb (a * 10 ^ t) (b * 10 ^ s);
  zero = (0, 0);
  one = (1, 0);
  checked_sub = λ (a, s) (b, t).
      if ltb (a * 10 ^ t) (b * 10 ^ s) then none else bounded (a * 10 ^ t - b * 10 ^ s, s + t);
  checked_mul = λ (a, s) (b, t). bounded (a * b, s + t);
  round_five = λ d. d;
}

abbrev calculator : FeeCalculator Mantissa
calculator = record { fee_rate = (7, 2); fee_exponent = 2 }

abbrev powers : ℕ → Mantissa
powers n = (25 ^ n, 2 * n)

exact : (i j : ℕ) → i + j ≤ 2 → arithmetic.checked_mul (powers i) (powers j) ≡ some (powers (i + j))
exact zero zero h = refl
exact zero (suc zero) h = refl
exact zero (suc (suc zero)) h = refl
exact (suc zero) zero h = refl
exact (suc zero) (suc zero) h = refl
exact (suc (suc zero)) zero h = refl
exact zero (suc (suc (suc j))) h = absurd (omega arith)
exact (suc zero) (suc (suc j)) h = absurd (omega arith)
exact (suc (suc zero)) (suc j) h = absurd (omega arith)
exact (suc (suc (suc i))) j h = absurd (omega arith)

taker_fee_lem_example :
    ((amount product : Mantissa) × (arithmetic.checked_mul (100, 0) (7, 2) ≡ some amount)
      × (arithmetic.checked_mul amount (powers 2) ≡ some product)
      × (taker_fee arithmetic calculator (100, 0) (5, 1) ≡ fee product))
    ⊎ (((arithmetic.checked_mul (100, 0) (7, 2) ≡ none)
          ⊎ ((amount : Mantissa) × ((arithmetic.checked_mul (100, 0) (7, 2) ≡ some amount)
                × (arithmetic.checked_mul amount (powers 2) ≡ none))))
        × (taker_fee arithmetic calculator (100, 0) (5, 1) ≡ refused arithmetic_overflow))
taker_fee_lem_example =
    taker_fee_lem arithmetic calculator (100, 0) (5, 1) (5, 1) powers refl refl refl refl refl refl
      refl exact

test_fee : taker_fee arithmetic calculator (100, 0) (5, 1) ≡ fee (437500, 6)
unfolding taker_fee curve_fee checked_pow pow_loop
test_fee = refl

test_free : taker_fee arithmetic calculator (100, 0) (1, 0) ≡ fee (0, 0)
unfolding taker_fee curve_fee checked_pow pow_loop
test_free = refl

test_no_shares : taker_fee arithmetic calculator (0, 0) (5, 1) ≡ refused non_positive_shares
unfolding taker_fee curve_fee
test_no_shares = refl
