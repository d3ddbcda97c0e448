-- ===== src/Retry/Backoff.antt =====
-- retry.rs: the delays of the policy.
use native.Mathlib.Nat.{pow-le-pow_right, mul-le-mul_left}
use rspm.Common.{
  Bool-cases, leb, ℕ, ◌-◌, ◌*◌, ◌^◌, ◌≤◌, ◌<◌, min, none, ◌≡◌, ◌⊎◌, inl, inr, arith, u32_max,
}
use rspm.Retry.{RetryPolicy, duration_max, saturating_pow_two, backoff_for}

small_power : (e : ℕ) → e ≤ 31 → 2 ^ e ≤ u32_max
small_power e h = let le : 2 ^ e ≤ 2 ^ 31 = pow-le-pow_right (omega arith) h in omega (arith, le)

large_power : (e : ℕ) → 31 < e → u32_max < 2 ^ e
large_power e h = let le : 2 ^ 32 ≤ 2 ^ e = pow-le-pow_right (omega arith) h in omega (arith, le)

min_left : {a b : ℕ} → a ≤ b → min a b ≡ a
min_left h = omega arith

min_right : {a b : ℕ} → b < a → min a b ≡ b
min_right h = omega arith

saturate :
    (x : ℕ) {longest ceiling : ℕ} → ceiling ≤ longest → min (min x longest) ceiling ≡ min x ceiling
saturate x h = omega arith

both_capped :
    (x y : ℕ) {longest ceiling : ℕ}
    → ceiling ≤ longest
    → ceiling ≤ x
    → x ≤ y
    → min (min x longest) ceiling ≡ min y ceiling
both_capped x y h k l = omega arith

-- The delay without a hint is the base doubled once per attempt after the first, up to the ceiling,
-- if the attempt is among the first 32 or the ceiling is within the base times the largest 32-bit
-- number; the ceiling has to be a duration.
pub backoff_for_exponential :
    (p : RetryPolicy) (attempt : ℕ)
    → p.max_backoff ≤ duration_max
    → (attempt ≤ 32) ⊎ (p.max_backoff ≤ p.base_backoff * u32_max)
    → backoff_for p attempt none ≡ min (p.base_backoff * 2 ^ (attempt - 1)) p.max_backoff
unfolding backoff_for saturating_pow_two
backoff_for_exponential p attempt fits h = elim (Bool-cases (leb (attempt - 1) 31)) [
  | inl small ↦
      let le : 2 ^ (attempt - 1) ≤ u32_max = small_power (attempt - 1) (ground arith) in
      let exact : saturating_pow_two (attempt - 1) ≡ 2 ^ (attempt - 1) = min_left le in
      rw exact (saturate _ fits)
  | inr large ↦
      let lt : u32_max < 2 ^ (attempt - 1) = large_power (attempt - 1) (ground arith) in
      let capped : p.max_backoff ≤ p.base_backoff * u32_max = ground (arith, h, large) in
      let over : p.base_backoff * u32_max ≤ p.base_backoff * 2 ^ (attempt - 1) =
        mul-le-mul_left p.base_backoff (omega arith) in
      let exact : saturating_pow_two (attempt - 1) ≡ u32_max = min_right lt in
      rw exact (both_capped _ _ fits capped over)
]
