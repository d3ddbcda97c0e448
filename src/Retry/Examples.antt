-- ===== src/Retry/Examples.antt =====
-- The default policy and two hints.
use rspm.Common.{◌*◌, ◌^◌, min, none, some, [], ◌∷◌, ◌≡◌, inl, refl, arith}
use rspm.Retry.{begins_ci, RetryPolicy, default_policy, backoff_for, parse_retry_after_from_body}
use rspm.Retry.Backoff.{backoff_for_exponential}

abbrev policy : RetryPolicy
policy = record { max_attempts = 3; base_backoff = 250000000; max_backoff = 5000000000 }

test_default : default_policy ≡ policy
unfolding default_policy
test_default = refl

backoff_for_exponential_example : backoff_for policy 3 none ≡ min (250000000 * 2 ^ 2) 5000000000
backoff_for_exponential_example = backoff_for_exponential policy 3 (omega arith) (inl (omega arith))

-- `Retry-After: 5`.
test_dash :
    parse_retry_after_from_body
      (82 ∷ 101 ∷ 116 ∷ 114 ∷ 121 ∷ 45 ∷ 65 ∷ 102 ∷ 116 ∷ 101 ∷ 114 ∷ 58 ∷ 32 ∷ 53 ∷ [])
    ≡ some 5
unfolding parse_retry_after_from_body begins_ci
test_dash = refl
