-- ===== src/Clob/Submit.antt =====
-- The bounded loop over attempts, the client's permit and the attempts of clob/client.rs. The state is
-- a parameter of the loop. `tracing` has no effect on what is modelled.
pub mod Bounded
pub mod Examples
use rspm.Common.{
  ℕ, zero, suc, ◌+◌, Bool, true, false, not, ◌||◌, ◌==◌, Option, none, some, List, [], ◌∷◌,
  if◌then◌else◌, text_eq,
}
use rspm.Retry.{RetryPolicy, should_retry, backoff_for}
use rspm.Submission.{ProtocolAuthority, protocol_eq, Attempt, revalidate}
use rspm.Clob.Errors.{
  OperationError, Outcome, ok, err, submission_revoked, protocol_authority_revoked, rate_limited,
  prepared_order_mismatch, no_match, classify_operation_error,
}
use rspm.Clob.Gate.{permit, matches, quarantine}
use rspm.Clob.Posting.{
  World, with_gate, Sdk, answered, failed, as_u32, PostOrderOutcome, accepted, not_accepted,
}

-- What the loop leaves: the state, the delays that it slept and the result.
pub record Retried (S A : Type 0) : Type 0 where
  pub state : S
  pub delays : List ℕ
  pub result : Outcome A

-- The match on a rate limit, with its hint.
abbrev pub rate_limit_of : OperationError → Option (Option ℕ)
rate_limit_of (rate_limited retry_after) = some retry_after
rate_limit_of _ = none

module _ {S A : Type 0} (policy : RetryPolicy) (authorize_attempt : S → S × Option Attempt)
    (retry_authority_active : S → Bool) (attempt_fn : Attempt → S → S × Outcome A)
    (sleep : ℕ → S → S) where
  abbrev stopped : OperationError → List ℕ → S → Option (Retried S A)
  stopped error delays s = some (record { state = s; delays = delays; result = err error })

  -- After a rate limit: the loop is `again`.
  abbrev after_rate_limit :
      (ℕ → List ℕ → S → Option (Retried S A)) → Option ℕ → ℕ → List ℕ → S → Option (Retried S A)
  after_rate_limit again retry_after attempt delays s =
      let delay = backoff_for policy attempt retry_after in
      let more = again (suc attempt) (delay ∷ delays) (sleep delay s) in
      if not (retry_authority_active s)
      then stopped submission_revoked delays s
      else if should_retry policy attempt
      then more
      else stopped (rate_limited retry_after) delays s

  abbrev after_attempt :
      (ℕ → List ℕ → S → Option (Retried S A)) → ℕ → List ℕ → S × Outcome A → Option (Retried S A)
  after_attempt again attempt delays (s, ok response) =
      some (record { state = s; delays = delays; result = ok response })
  after_attempt again attempt delays (s, err error) = elim (rate_limit_of error) [
    | some retry_after ↦ after_rate_limit again retry_after attempt delays s
    | none ↦ stopped error delays s
  ]

  abbrev after_authorize :
      (ℕ → List ℕ → S → Option (Retried S A))
      → ℕ
      → List ℕ
      → S × Option Attempt
      → Option (Retried S A)
  after_authorize again attempt delays (s, none) = stopped submission_revoked delays s
  after_authorize again attempt delays (s, some authority) =
      after_attempt again attempt delays (attempt_fn authority s)

  -- The loop on fuel, the last delay first; `none` is out of fuel. The number of attempts is below the
  -- maximum of the policy where it grows, so that it does not overflow.
  unfoldable pub retry_loop : ℕ → ℕ → List ℕ → S → Option (Retried S A)
  retry_loop zero attempt delays s = none
  retry_loop (suc fuel) attempt delays s =
      after_authorize (retry_loop fuel) attempt delays (authorize_attempt s)

  unfoldable pub retry_post_order : S → Option (Retried S A)
  unfolding retry_loop
  retry_post_order s = retry_loop (suc policy.max_attempts) 1 [] s
