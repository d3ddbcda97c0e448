-- ===== src/Fees.antt =====
-- fees.rs: the platform fee of a taker. The third-party `Decimal` is a parameter: its order, its
-- checked operations, which may round or fail, and its rounding to five places. An exponent is a u32.
pub mod Powers
pub mod Taker
pub mod Examples
use rspm.Common.{
  ℕ, zero, suc, ◌/◌, ◌%◌, Bool, not, ◌&&◌, ◌||◌, ◌==◌, Option, none, some, if◌then◌else◌, ltb,
  ◌>>=◌,
}

pub data PowerFeeError : Type 0 where
  non_positive_shares price_out_of_bounds negative_rate arithmetic_overflow : PowerFeeError

pub data Fee (A : Type 0) : Type 0 where
  fee : A → Fee A
  refused : PowerFeeError → Fee A

-- `a <= b` is the negation of `b < a`, and `a == b` that neither is below the other.
pub record Arithmetic (Decimal : Type 0) : Type 0 where
  pub lt : Decimal → Decimal → Bool
  pub zero : Decimal
  pub one : Decimal
  pub checked_sub : Decimal → Decimal → Option Decimal
  pub checked_mul : Decimal → Decimal → Option Decimal
  pub round_five : Decimal → Decimal

pub record FeeCalculator (Decimal : Type 0) : Type 0 where
  pub fee_rate : Decimal
  pub fee_exponent : ℕ

module _ {Decimal : Type 0} (arithmetic : Arithmetic Decimal) where
  abbrev pub decimal_eq : Decimal → Decimal → Bool
  decimal_eq a b = not (arithmetic.lt a b) && not (arithmetic.lt b a)

  unfoldable pub from_market_metadata : Decimal → ℕ → Fee (FeeCalculator Decimal)
  from_market_metadata rate exponent =
      if arithmetic.lt rate arithmetic.zero
      then refused negative_rate
      else fee (record { fee_rate = rate; fee_exponent = exponent })

  -- The multiplication of a round with an odd exponent, and the square before the next round.
  abbrev pub mul_if_odd : ℕ → Decimal → Decimal → Option Decimal
  mul_if_odd exponent product base =
      if exponent % 2 == 1 then arithmetic.checked_mul product base else some product

  abbrev pub square_if_more : ℕ → Decimal → Option Decimal
  square_if_more exponent base =
      if ltb 0 exponent then arithmetic.checked_mul base base else some base

  -- The loop on fuel: a round halves the exponent.
  unfoldable pub pow_loop : ℕ → Decimal → ℕ → Decimal → Option Decimal
  pow_loop zero base exponent product = some product
  pow_loop (suc fuel) base exponent product =
      let round = (do
        product' ← mul_if_odd exponent product base
        base' ← square_if_more (exponent / 2) base
        pow_loop fuel base' (exponent / 2) product') in
      if exponent == 0 then some product else round

  unfoldable pub checked_pow : Decimal → ℕ → Option Decimal
  unfolding pow_loop
  checked_pow base exponent = pow_loop exponent base exponent arithmetic.one

  abbrev overflow_or : Option Decimal → Fee Decimal
  overflow_or none = refused arithmetic_overflow
  overflow_or (some amount) = fee (arithmetic.round_five amount)

  -- The formula, each step of which may overflow.
  unfoldable pub curve_fee : FeeCalculator Decimal → Decimal → Decimal → Fee Decimal
  curve_fee c shares price = overflow_or (do
    complement ← arithmetic.checked_sub arithmetic.one price
    base ← arithmetic.checked_mul price complement
    curve ← checked_pow base c.fee_exponent
    amount ← arithmetic.checked_mul shares c.fee_rate
    arithmetic.checked_mul amount curve)

  abbrev pub is_free : FeeCalculator Decimal → Decimal → Bool
  is_free c price =
      decimal_eq c.fee_rate arithmetic.zero
      || (ltb 0 c.fee_exponent
          && (decimal_eq price arithmetic.zero || decimal_eq price arithmetic.one))

  unfoldable pub taker_fee : FeeCalculator Decimal → Decimal → Decimal → Fee Decimal
  unfolding curve_fee
  taker_fee c shares price =
      if not (arithmetic.lt arithmetic.zero shares)
      then refused non_positive_shares
      else if arithmetic.lt price arithmetic.zero || arithmetic.lt arithmetic.one price
      then refused price_out_of_bounds
      else if is_free c price
      then fee arithmetic.zero
      else curve_fee c shares price

  abbrev pub maker_fee : FeeCalculator Decimal → Decimal
  maker_fee c = arithmetic.zero
