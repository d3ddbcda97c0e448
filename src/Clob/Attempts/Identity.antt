-- ===== src/Clob/Attempts/Identity.antt =====
-- An accepted prepared order is the one that was prepared.
use rspm.Common.{
  ℕ, ◌≤◌, ◌≡◌, arith, Option, some, List, length, Bool-cases, inl, inr, text_eq, text_eq-eq, ap,
}
use rspm.Retry.{default_policy}
use rspm.Submission.{ProtocolAuthority, Attempt, revalidate}
use rspm.Clob.Errors.{Outcome, ok, err}
use rspm.Clob.Posting.{World, PostOrderOutcome, accepted, not_accepted, post_prepared_sdk}
use rspm.Clob.Submit.{Retried}
use rspm.Clob.Submit.Bounded.{retry_post_order_lem}
use rspm.Clob.Attempts.{
  ClientRun, submission_client, with_permit, expect_id, prepared_attempt, counted, authority_active,
  submit,
}

module _ (binding : ℕ) where
  expect_id-accepted :
      (expected : List ℕ) (outcome : Outcome PostOrderOutcome) {id : List ℕ}
      → expect_id binding expected outcome ≡ ok (accepted id)
      → id ≡ expected
  expect_id-accepted expected (ok (accepted order_id)) {id} h =
      elim (Bool-cases (text_eq order_id expected)) [
        | inl e ↦
            let same : order_id ≡ id = ground arith in rw (← same) (text_eq-eq order_id expected e)
        | inr e ↦ absurd (ground arith)
      ]
  expect_id-accepted expected (ok not_accepted) h = absurd (cc)
  expect_id-accepted expected (err error) h = absurd (cc)

  -- What follows the permit decides.
  with_permit-accepted :
      (expected : List ℕ) (rest : ProtocolAuthority → World → World × Outcome PostOrderOutcome)
      (attempt : Attempt) (answer : World × Outcome ProtocolAuthority) {id : List ℕ}
      → ((a : ProtocolAuthority) (v : World) → (rest a v).1 ≡ ok (accepted id) → id ≡ expected)
      → (with_permit binding rest attempt answer).1 ≡ ok (accepted id)
      → id ≡ expected
  with_permit-accepted expected rest attempt (w, err error) each h = absurd (cc)
  with_permit-accepted expected rest attempt (w, ok authority) each h =
      elim (Bool-cases (revalidate binding authority attempt w.controller).1) [
        | inl valid ↦
            each authority
              (record w { controller = (revalidate binding authority attempt w.controller).0 })
              (rw (valid, with_permit) at h)
        | inr lost ↦ absurd (let k = rw (lost, with_permit) at h in cc)
      ]

  prepared_attempt-accepted :
      (expected : List ℕ) (c : ClientRun) (attempt : Attempt) (w : World) {id : List ℕ}
      → (prepared_attempt binding expected c attempt w).1 ≡ ok (accepted id)
      → id ≡ expected
  unfolding prepared_attempt
  prepared_attempt-accepted expected c attempt w h =
      with_permit-accepted expected
        (λ authority v.
          let posted = post_prepared_sdk binding attempt authority c.run v in
          (posted.world, expect_id binding expected posted.result))
        attempt (submission_client c w)
        (λ a v e.
          expect_id-accepted expected (post_prepared_sdk binding attempt a c.run v).result e)
        h

  -- A submission of a prepared order ends, with at most two sleeps, whatever the SDK, the caller and
  -- the other tasks do; and if it reports an accepted order, then that order's identifier is the one
  -- that was computed for the prepared order.
  pub submit_prepared-id :
      (expected : List ℕ) (runs : ℕ → ClientRun)
      (authorize_attempt : ℕ × World → (ℕ × World) × Option Attempt)
      (sleep : ℕ → ℕ × World → ℕ × World) (w : World)
      → (r : Retried (ℕ × World) PostOrderOutcome) × ((submit binding
              (λ n. prepared_attempt binding expected (runs n))
              authorize_attempt
              sleep
              w
            ≡ some r)
          × (length r.delays ≤ 2)
          × ((id : List ℕ) → r.result ≡ ok (accepted id) → id ≡ expected))
  unfolding submit default_policy
  submit_prepared-id expected runs authorize_attempt sleep w =
      let (r, (e, (short, _, _, made))) =
        retry_post_order_lem default_policy authorize_attempt (authority_active binding)
          (counted binding (λ n. prepared_attempt binding expected (runs n))) sleep (0, w) in
      (
        r,
        (
          e,
          omega arith,
          λ id k.
              let (attempt, ((n, v), call)) = made (accepted id) k in
              prepared_attempt-accepted expected (runs n) attempt v (ap (λ p. p.1) call),
        ),
      )
