-- ===== src/Fees/Taker.antt =====
-- The fee of a taker on every branch.
use rspm.Common.{ℕ, ◌+◌, ◌≤◌, ◌≡◌, arith, true, false, none, some, Option-cases, inl, inr, ◌⊎◌}
use rspm.Fees.{
  Arithmetic, FeeCalculator, fee, refused, arithmetic_overflow, is_free, curve_fee, taker_fee,
}
use rspm.Fees.Powers.{checked_pow-powers}

module _ {Decimal : Type 0} (arithmetic : Arithmetic Decimal) (c : FeeCalculator Decimal)
    (shares price complement : Decimal) (powers : ℕ → Decimal) where
  -- A fee for a positive number of shares at a price from 0 to 1 that is not free is the rounded
  -- product of the shares, the rate and the power of price * (1 - price) with the exponent, or an
  -- overflow where one of those two products overflows: if the complement and the products of
  -- powers up to the exponent are exact.
  pub taker_fee_lem :
      arithmetic.lt arithmetic.zero shares ≡ true
      → arithmetic.lt price arithmetic.zero ≡ false
      → arithmetic.lt arithmetic.one price ≡ false
      → is_free arithmetic c price ≡ false
      → arithmetic.checked_sub arithmetic.one price ≡ some complement
      → arithmetic.checked_mul price complement ≡ some (powers 1)
      → powers 0 ≡ arithmetic.one
      → ((i j : ℕ)
          → i + j ≤ c.fee_exponent
          → arithmetic.checked_mul (powers i) (powers j) ≡ some (powers (i + j)))
      → ((amount product : Decimal) × (arithmetic.checked_mul shares c.fee_rate ≡ some amount)
          × (arithmetic.checked_mul amount (powers c.fee_exponent) ≡ some product)
          × (taker_fee arithmetic c shares price ≡ fee (arithmetic.round_five product)))
        ⊎ (((arithmetic.checked_mul shares c.fee_rate ≡ none)
              ⊎ ((amount : Decimal) × ((arithmetic.checked_mul shares c.fee_rate ≡ some amount)
                    × (arithmetic.checked_mul amount (powers c.fee_exponent) ≡ none))))
            × (taker_fee arithmetic c shares price ≡ refused arithmetic_overflow))
  unfolding taker_fee curve_fee
  taker_fee_lem positive low high paid sub base one exact =
      let curve = checked_pow-powers arithmetic powers c.fee_exponent exact one in
      elim (Option-cases (arithmetic.checked_mul shares c.fee_rate)) [
        | inl overflow ↦
            inr
              (inl overflow, rw (positive, paid, low, high, sub, base, curve, overflow, taker_fee))
        | inr (amount, made) ↦
            elim (Option-cases (arithmetic.checked_mul amount (powers c.fee_exponent))) [
              | inl overflow ↦ inr (
                inr (amount, (made, overflow)),
                rw (positive, paid, low, high, sub, base, curve, made, overflow, taker_fee),
              )
              | inr (product, made') ↦ inl (
                amount,
                product,
                made,
                made',
                rw (positive, paid, low, high, sub, base, curve, made, made', taker_fee),
              )
            ]
      ]

module _ {Decimal : Type 0} (arithmetic : Arithmetic Decimal) (c : FeeCalculator Decimal) where
  -- A fee is granted only for a positive number of shares at a price from 0 to 1.
  pub taker_fee-fee :
      (shares price : Decimal) {amount : Decimal}
      → taker_fee arithmetic c shares price ≡ fee amount
      → (arithmetic.lt arithmetic.zero shares ≡ true)
        × (arithmetic.lt price arithmetic.zero ≡ false)
        × (arithmetic.lt arithmetic.one price ≡ false)
  unfolding taker_fee
  taker_fee-fee shares price h = (ground arith, ground arith, ground arith)
