-- ===== src/Clob/Submit/Examples.antt =====
-- A call that is throttled once and then answered.
use rspm.Common.{ℕ, suc, ◌≡◌, refl, true, Bool, Option, none, some, [], ◌∷◌, ◌==◌, if◌then◌else◌}
use rspm.Retry.{default_policy, should_retry, backoff_for, saturating_pow_two}
use rspm.Submission.{Attempt, v2}
use rspm.Clob.Errors.{Outcome, ok, err, rate_limited}
use rspm.Clob.Submit.{retry_loop, retry_post_order}

abbrev attempt : Attempt
attempt = record {
  binding = 1;
  revocation_epoch = 0;
  protocol_authority = record {
    version = v2;
    credentials = record { identity = 7; generation = 3 };
  };
}

abbrev authorize : ℕ → ℕ × Option Attempt
authorize calls = (calls, some attempt)

abbrev active : ℕ → Bool
active calls = true

abbrev answer : Attempt → ℕ → ℕ × Outcome ℕ
answer a calls = (suc calls, (if calls == 0 then err (rate_limited none) else ok 7))

abbrev sleep : ℕ → ℕ → ℕ
sleep delay calls = calls

test_retry :
    retry_post_order default_policy authorize active answer sleep 0
    ≡ some (record { state = 2; delays = 250000000 ∷ []; result = ok 7 })
unfolding retry_post_order retry_loop default_policy should_retry backoff_for saturating_pow_two
test_retry = refl
