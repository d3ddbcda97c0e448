-- ===== src/Clob/Submit/Bounded.antt =====
-- The loop over attempts ends, sleeps a bounded number of bounded delays, and reports a rate limit only
-- with the authority to wait.
use rspm.Common.{
  ℕ, zero, suc, ◌+◌, ◌≤◌, ◌<◌, ◌≡◌, refl, arith, max, Bool, true, not, Option, none, some, List, [],
  ◌∷◌, length, All, Option-cases, inl, inr, if_elim,
}
use rspm.Retry.{RetryPolicy, should_retry, backoff_for}
use rspm.Submission.{Attempt}
use rspm.Clob.Errors.{OperationError, Outcome, ok, err, rate_limited, submission_revoked}
use rspm.Clob.Submit.{
  Retried, rate_limit_of, after_rate_limit, after_attempt, after_authorize, retry_loop,
  retry_post_order,
}

backoff_for-le :
    (p : RetryPolicy) (attempt : ℕ) (hint : Option ℕ) → backoff_for p attempt hint ≤ p.max_backoff
unfolding backoff_for
backoff_for-le p attempt none = ground arith
backoff_for-le p attempt (some hint) = ground arith

module _ {S A : Type 0} (policy : RetryPolicy) (authorize_attempt : S → S × Option Attempt)
    (retry_authority_active : S → Bool) (attempt_fn : Attempt → S → S × Outcome A)
    (sleep : ℕ → S → S) where
  abbrev Bounded : List ℕ → Type 0
  Bounded delays = All (λ d. d ≤ policy.max_backoff) delays

  -- What the loop leaves.
  abbrev pub Ends : Retried S A → Type 0
  Ends r =
      (length r.delays < max 1 policy.max_attempts)
      × Bounded r.delays
      × ((hint : Option ℕ)
          → r.result ≡ err (rate_limited hint)
          → (policy.max_attempts ≤ suc (length r.delays)) × (retry_authority_active r.state ≡ true))
      × ((a : A)
          → r.result ≡ ok a
          → (authority : Attempt) × ((s : S) × (attempt_fn authority s ≡ (r.state, ok a))))

  abbrev Yields : Option (Retried S A) → Type 0
  Yields o = (r : Retried S A) × ((o ≡ some r) × Ends r)

  -- An attempt within the maximum, with the delays before it.
  abbrev IsAt : ℕ → List ℕ → Type 0
  IsAt attempt delays =
      (attempt ≡ suc (length delays)) × (attempt ≤ max 1 policy.max_attempts) × Bounded delays

  after_rate_limit-Yields :
      (again : ℕ → List ℕ → S → Option (Retried S A)) (hint : Option ℕ) (attempt : ℕ)
      (delays : List ℕ) (s : S)
      → IsAt attempt delays
      → ((ds : List ℕ) (t : S) → IsAt (suc attempt) ds → Yields (again (suc attempt) ds t))
      → Yields (
          after_rate_limit policy authorize_attempt retry_authority_active attempt_fn sleep again
            hint attempt delays s)
  unfolding should_retry
  after_rate_limit-Yields again hint attempt delays s (counted, within, bounded) more =
      if_elim Yields (not (retry_authority_active s))
        (λ gone. (
          record { state = s; delays = delays; result = err submission_revoked },
          (refl, (omega arith, bounded, λ h e. absurd (cc), λ a e. absurd (cc))),
        ))
        (λ kept.
          if_elim Yields (should_retry policy attempt)
            (λ again_.
              more (backoff_for policy attempt hint ∷ delays) _
                (omega arith, ground arith, (backoff_for-le policy attempt hint, bounded)))
            (λ last. (
              record { state = s; delays = delays; result = err (rate_limited hint) },
              (
                refl,
                (omega arith, bounded, λ h e. (ground arith, ground arith), λ a e. absurd (cc)),
              ),
            )))

  stopped-Yields :
      (error : OperationError) (attempt : ℕ) (delays : List ℕ) (s : S)
      → IsAt attempt delays
      → rate_limit_of error ≡ none
      → Yields (some (record { state = s; delays = delays; result = err error }))
  stopped-Yields error attempt delays s (counted, within, bounded) other = (
    record { state = s; delays = delays; result = err error },
    (
      refl,
      (
        omega arith,
        bounded,
        λ hint e.
            absurd (let same : error ≡ rate_limited hint = cc in let k = rw same at other in cc),
        λ a e. absurd (cc),
      ),
    ),
  )

  after_attempt-Yields :
      (again : ℕ → List ℕ → S → Option (Retried S A)) (attempt : ℕ) (delays : List ℕ)
      (authority : Attempt) (t : S) (answer : S × Outcome A)
      → attempt_fn authority t ≡ answer
      → IsAt attempt delays
      → ((ds : List ℕ) (t : S) → IsAt (suc attempt) ds → Yields (again (suc attempt) ds t))
      → Yields (
          after_attempt policy authorize_attempt retry_authority_active attempt_fn sleep again
            attempt delays answer)
  after_attempt-Yields again attempt delays authority t (s, ok response) made
        (counted, within, bounded) more =
      (
        record { state = s; delays = delays; result = ok response },
        (
          refl,
          (
            omega arith,
            bounded,
            λ hint e. absurd (cc),
            λ a e. (authority, (t, let same : response ≡ a = cc in rw (← same) made)),
          ),
        ),
      )
  after_attempt-Yields again attempt delays authority t (s, err error) made at_ more =
      elim (Option-cases (rate_limit_of error)) [
        | inl other ↦ rw (other, after_attempt) (stopped-Yields error attempt delays s at_ other)
        | inr (hint, limited) ↦
            rw (limited, after_attempt)
              (after_rate_limit-Yields again hint attempt delays s at_ more)
      ]

  after_authorize-Yields :
      (again : ℕ → List ℕ → S → Option (Retried S A)) (attempt : ℕ) (delays : List ℕ)
      (answer : S × Option Attempt)
      → IsAt attempt delays
      → ((ds : List ℕ) (t : S) → IsAt (suc attempt) ds → Yields (again (suc attempt) ds t))
      → Yields (
          after_authorize policy authorize_attempt retry_authority_active attempt_fn sleep again
            attempt delays answer)
  after_authorize-Yields again attempt delays (s, none) at_ more =
      stopped-Yields submission_revoked attempt delays s at_ refl
  after_authorize-Yields again attempt delays (s, some authority) at_ more =
      after_attempt-Yields again attempt delays authority s (attempt_fn authority s) refl at_ more

  retry_loop-Yields :
      (fuel attempt : ℕ) (delays : List ℕ) (s : S)
      → max 1 policy.max_attempts < attempt + fuel
      → IsAt attempt delays
      → Yields (
          retry_loop policy authorize_attempt retry_authority_active attempt_fn sleep fuel attempt
            delays s)
  unfolding retry_loop
  retry_loop-Yields zero attempt delays s enough (counted, within, bounded) = absurd (omega arith)
  retry_loop-Yields (suc fuel) attempt delays s enough at_ =
      after_authorize-Yields
        (retry_loop policy authorize_attempt retry_authority_active attempt_fn sleep fuel) attempt
        delays (authorize_attempt s) at_
        (λ ds t next. retry_loop-Yields fuel (suc attempt) ds t (omega arith) next)

  pub retry_post_order_lem :
      (s : S)
      → (r : Retried S A) × ((retry_post_order policy authorize_attempt retry_authority_active
              attempt_fn sleep s
            ≡ some r)
          × Ends r)
  unfolding retry_post_order
  retry_post_order_lem s =
      retry_loop-Yields (suc policy.max_attempts) 1 [] s (omega arith) (refl, omega arith, tt)
