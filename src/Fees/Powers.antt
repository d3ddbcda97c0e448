-- ===== src/Fees/Powers.antt =====
-- The power by squaring is the power, where the products of powers up to it are exact.
use rspm.Common.{
  ℕ, zero, suc, ◌+◌, ◌*◌, ◌/◌, ◌%◌, ◌≤◌, ◌≡◌, refl, ap, ◌∙◌, arith, true, false, some, ◌==◌, ltb,
}
use rspm.Fees.{Arithmetic, mul_if_odd, pow_loop, checked_pow}

split_product : (b q r n : ℕ) → n ≡ q * 2 + r → b * n ≡ (b + b) * q + r * b
split_product b q r n h = rw h (grind arith)

module _ {Decimal : Type 0} (arithmetic : Arithmetic Decimal) where
  pow_loop-zero :
      (fuel : ℕ) (base product : Decimal) → pow_loop arithmetic fuel base 0 product ≡ some product
  unfolding pow_loop
  pow_loop-zero zero base product = refl
  pow_loop-zero (suc fuel) base product = refl

module _ {Decimal : Type 0} (arithmetic : Arithmetic Decimal) (powers : ℕ → Decimal) (e : ℕ)
    (exact : (i j : ℕ)
      → i + j ≤ e
      → arithmetic.checked_mul (powers i) (powers j) ≡ some (powers (i + j))) where
  mul_odd :
      (n a b r : ℕ)
      → n % 2 ≡ r
      → a + r * b ≤ e
      → mul_if_odd arithmetic n (powers a) (powers b) ≡ some (powers (a + r * b))
  mul_odd n a b zero q h = let s : a + 0 * b ≡ a = omega arith in rw (s, q) refl
  mul_odd n a b (suc zero) q h =
      let s : a + 1 * b ≡ a + b = omega arith in rw (s, q) (exact a b (omega arith))
  mul_odd n a b (suc (suc r)) q h = absurd (omega arith)

  -- One round, the rest of the loop given.
  round :
      (fuel m a b q r : ℕ)
      → suc m / 2 ≡ q
      → suc m % 2 ≡ r
      → a + b * suc m ≤ e
      → ((a' b' : ℕ)
          → a' + b' * q ≤ e
          → pow_loop arithmetic fuel (powers b') q (powers a') ≡ some (powers (a' + b' * q)))
      → pow_loop arithmetic (suc fuel) (powers b) (suc m) (powers a) ≡ some (powers (a + b * suc m))
  unfolding pow_loop
  round fuel m a b zero r eq er h loop =
      let s : b * suc m ≡ (b + b) * 0 + r * b = split_product b 0 r (suc m) (omega arith) in
      let t : a + b * suc m ≡ a + r * b = omega arith in
      let some_left : (suc m == 0) ≡ false = ground arith in
      rw (some_left, mul_odd (suc m) a b r er (omega arith), eq, t)
        (pow_loop-zero arithmetic fuel (powers b) (powers (a + r * b)))
  round fuel m a b (suc q) r eq er h loop =
      let s : b * suc m ≡ (b + b) * suc q + r * b =
        split_product b (suc q) r (suc m) (omega arith) in
      let t : a + b * suc m ≡ a + r * b + (b + b) * suc q = omega arith in
      let twice : b + b ≤ (b + b) * suc q = omega arith in
      let some_left : (suc m == 0) ≡ false = ground arith in
      let more_left : ltb 0 (suc q) ≡ true = ground arith in
      rw
        (
          some_left,
          mul_odd (suc m) a b r er (omega arith),
          eq,
          more_left,
          exact b b (omega arith),
          t,
        )
        (loop (a + r * b) (b + b) (omega arith))

  pow_loop-powers :
      (fuel n a b : ℕ)
      → n ≤ fuel
      → a + b * n ≤ e
      → pow_loop arithmetic fuel (powers b) n (powers a) ≡ some (powers (a + b * n))
  unfolding pow_loop
  pow_loop-powers zero n a b le h =
      let z : n ≡ 0 = omega arith in ap (λ k. some (powers k)) (rw z (omega arith))
  pow_loop-powers (suc fuel) zero a b le h = ap (λ k. some (powers k)) (omega arith)
  pow_loop-powers (suc fuel) (suc m) a b le h =
      round fuel m a b (suc m / 2) (suc m % 2) refl refl h
        (λ a' b' h'. pow_loop-powers fuel (suc m / 2) a' b' (omega arith) h')

  -- The power by squaring yields the power with the exponent, without overflow, where the products of
  -- powers with exponents that add up to at most the exponent are exact.
  pub checked_pow-powers :
      powers 0 ≡ arithmetic.one → checked_pow arithmetic (powers 1) e ≡ some (powers e)
  unfolding checked_pow
  checked_pow-powers h =
      let s : 0 + 1 * e ≡ e = omega arith in
      rw (← h) (pow_loop-powers e e 0 1 (omega arith) (omega arith) ∙ ap (λ k. some (powers k)) s)
