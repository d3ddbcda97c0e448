-- ===== src/Clob/Attempts.antt =====
-- The client's permit, the two kinds of attempt and the submissions built from them, of clob/client.rs.
-- `run` says for each attempt what the SDK yields and what others change.
pub mod Identity
pub mod Examples
use rspm.Common.{
  ℕ, suc, Bool, true, false, not, ◌||◌, ◌==◌, Option, none, some, List, if◌then◌else◌, text_eq,
}
use rspm.Retry.{RetryPolicy, default_policy}
use rspm.Submission.{ProtocolAuthority, protocol_eq, Attempt, revalidate}
use rspm.Clob.Errors.{
  OperationError, Outcome, ok, err, submission_revoked, protocol_authority_revoked, no_match,
  prepared_order_mismatch, SdkError, classify_operation_error,
}
use rspm.Clob.Gate.{permit, matches, quarantine}
use rspm.Clob.Posting.{
  World, with_gate, Sdk, answered, failed, as_u32, PostOrderOutcome, accepted, not_accepted, Run,
  Posted, post_prepared_sdk, sign_and_post_sdk,
}
use rspm.Clob.Submit.{Retried, retry_post_order}

-- What one attempt meets: the version that the permit is checked with, the error of the build if any,
-- and the rest.
pub record ClientRun : Type 0 where
  pub sdk_version : Sdk ℕ
  pub until_matched : World → World
  pub built : Option SdkError
  pub until_built : World → World
  pub run : Run

-- The head of `submission_client` on the installed authority and the version.
abbrev pub client_permit :
    ProtocolAuthority → Option ProtocolAuthority → Sdk ℕ → World → World × Outcome ProtocolAuthority
client_permit permitted none version w = (w, err protocol_authority_revoked)
client_permit permitted (some authority) (failed error) w =
    (w, err (classify_operation_error error))
client_permit permitted (some authority) (answered sdk_version) w =
    if not (protocol_eq authority permitted)
      || not (sdk_version == as_u32 authority.version)
      || not (matches permitted w.gate)
    then (with_gate (quarantine permitted) w, err protocol_authority_revoked)
    else (w, ok permitted)

unfoldable pub submission_client : ClientRun → World → World × Outcome ProtocolAuthority
submission_client c w = elim (permit w.gate) [
  | none ↦ (w, err protocol_authority_revoked)
  | some permitted ↦ client_permit permitted c.run.installed c.sdk_version (c.until_matched w)
]

module _ (binding : ℕ) where
  -- The permit and the test of the attempt, which every submission begins with; `rest` is what follows.
  abbrev pub with_permit :
      (ProtocolAuthority → World → World × Outcome PostOrderOutcome)
      → Attempt
      → World × Outcome ProtocolAuthority
      → World × Outcome PostOrderOutcome
  with_permit rest attempt (w, err error) = (w, err error)
  with_permit rest attempt (w, ok authority) =
      let (controller, valid) = revalidate binding authority attempt w.controller in
      if not valid
      then (
        with_gate (quarantine authority) (record w { controller = controller }),
        err submission_revoked,
      )
      else rest authority (record w { controller = controller })

  -- The match on the outcome of a prepared order.
  abbrev pub expect_id : List ℕ → Outcome PostOrderOutcome → Outcome PostOrderOutcome
  expect_id expected_order_id (ok (accepted order_id)) =
      if text_eq order_id expected_order_id
      then ok (accepted order_id)
      else err prepared_order_mismatch
  expect_id expected_order_id (ok not_accepted) = ok not_accepted
  expect_id expected_order_id (err error) = err error

  -- The attempt of `submit_prepared`.
  unfoldable pub prepared_attempt :
      List ℕ → ClientRun → Attempt → World → World × Outcome PostOrderOutcome
  unfolding submission_client
  prepared_attempt expected_order_id c attempt w =
      with_permit
        (λ authority v.
          let posted = post_prepared_sdk binding attempt authority c.run v in
          (posted.world, expect_id expected_order_id posted.result))
        attempt (submission_client c w)

  -- The attempt of `submit_fak`, `submit_gtc_buy` and `submit_gtc_sell`: the order is built first.
  unfoldable pub limit_attempt : ClientRun → Attempt → World → World × Outcome PostOrderOutcome
  unfolding submission_client
  limit_attempt c attempt w =
      with_permit
        (λ authority v. elim c.built [
          | some error ↦ (c.until_built v, err (classify_operation_error error))
          | none ↦
              let posted = sign_and_post_sdk binding attempt authority c.run (c.until_built v) in
              (posted.world, posted.result)
        ])
        attempt (submission_client c w)

  -- The attempts are counted in the state.
  abbrev pub counted :
      (ℕ → Attempt → World → World × Outcome PostOrderOutcome)
      → Attempt
      → ℕ × World
      → (ℕ × World) × Outcome PostOrderOutcome
  counted attempt_fn attempt (n, w) =
      let (v, outcome) = attempt_fn n attempt w in ((suc n, v), outcome)

  abbrev pub authority_active : ℕ × World → Bool
  authority_active (n, w) = elim (permit w.gate) [ none ↦ false | some authority ↦ true ]

  -- The loop with the default policy.
  unfoldable pub submit :
      (ℕ → Attempt → World → World × Outcome PostOrderOutcome)
      → (ℕ × World → (ℕ × World) × Option Attempt)
      → (ℕ → ℕ × World → ℕ × World)
      → World
      → Option (Retried (ℕ × World) PostOrderOutcome)
  submit attempt_fn authorize_attempt sleep w =
      retry_post_order default_policy authorize_attempt authority_active (counted attempt_fn) sleep
        (0, w)

-- `Option<String>` of an accepted order; the second says whether a missing match is no error.
unfoldable pub order_id_of : Bool → Outcome PostOrderOutcome → Outcome (Option (List ℕ))
order_id_of miss_is_none (ok (accepted order_id)) = ok (some order_id)
order_id_of miss_is_none (ok not_accepted) = ok none
order_id_of miss_is_none (err no_match) = if miss_is_none then ok none else err no_match
order_id_of miss_is_none (err error) = err error
