-- ===== src/Clob/Posting.antt =====
-- One submission of clob/client.rs: the client's permit, the checks before the POST, the first poll
-- and what the answer leaves. Between two locks other tasks may change the gate and the controller:
-- those changes are functions. The SDK is a parameter: its versions, its signature and the answer.
pub mod Answers
pub mod Checks
use rspm.Common.{
  ℕ, Bool, true, false, not, ◌&&◌, ◌||◌, ◌==◌, Option, none, some, List, length, if◌then◌else◌,
}
use rspm.Auth.Schema.{venue_identifier_is_valid}
use rspm.Submission.{
  ProtocolVersion, v1, v2, ProtocolAuthority, protocol_eq, Controller, Attempt, revalidate,
  poll_first_transport,
}
use rspm.Clob.Errors.{
  OperationError, Outcome, ok, err, submission_revoked, protocol_authority_revoked,
  post_send_indeterminate, SdkError, classify_operation_error, post_response_is_ambiguous,
}
use rspm.Clob.Gate.{Gate, permit, matches, quarantine, mark_indeterminate}

pub record World : Type 0 where
  pub gate : Gate
  pub controller : Controller

abbrev pub with_gate : (Gate → Gate) → World → World
with_gate f w = record w { gate = f w.gate }

-- An answer of the SDK.
pub data Sdk {ℓ} (A : Type ℓ) : Type ℓ where
  answered : A → Sdk A
  failed : SdkError → Sdk A

abbrev pub is_version : ℕ → Sdk ℕ → Bool
is_version version (answered v) = v == version
is_version version (failed e) = false

-- `as_u32` of the protocol version.
abbrev pub as_u32 : ProtocolVersion → ℕ
as_u32 v1 = 1
as_u32 v2 = 2

-- The fields of the SDK's response that the code reads.
pub record PostOrderResponse : Type 0 where
  pub success : Bool
  pub order_id : List ℕ

pub data PostOrderOutcome : Type 0 where
  accepted : List ℕ → PostOrderOutcome
  not_accepted : PostOrderOutcome

-- clob/submission.rs; `none` is the error.
unfoldable pub classify_post_order_response : PostOrderResponse → Option PostOrderOutcome
classify_post_order_response response =
    if response.success
    then (if venue_identifier_is_valid response.order_id
        then some (accepted response.order_id)
        else none)
    else if length response.order_id == 0
    then some not_accepted
    else none

-- What a submission leaves; `polled` says whether the transport was.
pub record Posted : Type 0 where
  pub world : World
  pub polled : Bool
  pub result : Outcome PostOrderOutcome

unfoldable pub classify_posted : Sdk PostOrderResponse → Outcome PostOrderOutcome
classify_posted (answered response) = elim (classify_post_order_response response) [
  | none ↦ err post_send_indeterminate
  | some outcome ↦ ok outcome
]
classify_posted (failed error) =
    if post_response_is_ambiguous error
    then err post_send_indeterminate
    else err (classify_operation_error error)

-- Where the outcome is unknown the function returns; the other errors are answers.
unfoldable pub is_unknown : Sdk PostOrderResponse → Bool
is_unknown (answered response) = elim (classify_post_order_response response) [
  | none ↦ true
  | some outcome ↦ false
]
is_unknown (failed error) = post_response_is_ambiguous error

abbrev pub revokes {ℓ} : {A : Type ℓ} → Outcome A → Bool
revokes (err protocol_authority_revoked) = true
revokes _ = false

-- What the SDK yields and what others change, in the order of the code: the authority that the client
-- has installed, its version, the order's, the signature's error if any, the answer, and the version
-- after it.
pub record Run : Type 0 where
  pub installed : Option ProtocolAuthority
  pub before_version : Sdk ℕ
  pub order_version : ℕ
  pub signed : Option SdkError
  pub posted : Sdk PostOrderResponse
  pub after_version : Sdk ℕ
  pub until_check : World → World
  pub until_signed : World → World
  pub until_poll : World → World
  pub in_flight : World → World
  pub between : World → World

module _ (binding : ℕ) (attempt : Attempt) (authority : ProtocolAuthority) where
  -- After the answer, with the changes of others until the version is read again.
  unfoldable pub settle : ℕ → Sdk ℕ → (World → World) → Sdk PostOrderResponse → World → Posted
  unfolding is_unknown classify_posted
  settle before_version after_version between posted w =
      let response = classify_posted posted in
      let after = between w in
      if is_unknown posted
      then record {
        world = with_gate (mark_indeterminate authority) w;
        polled = true;
        result = err post_send_indeterminate;
      }
      else record {
        world =
            if revokes response
              || not (is_version before_version after_version)
              || not (matches authority after.gate)
            then with_gate (quarantine authority) after
            else after;
        polled = true;
        result = response;
      }

  -- `poll_transport_after_begin` and the rest: the poll, then the changes of others until the answer
  -- comes. The first poll does not panic.
  unfoldable pub post :
      ℕ → Sdk ℕ → (World → World) → (World → World) → Sdk PostOrderResponse → World → Posted
  unfolding settle
  post before_version after_version in_flight between posted w =
      let (controller, polled) =
        poll_first_transport binding authority false attempt w.controller in
      let begun = record w { controller = controller } in
      if polled
      then settle before_version after_version between posted (in_flight begun)
      else record {
        world = with_gate (quarantine authority) begun;
        polled = false;
        result = err submission_revoked;
      }

  -- The conditions of the check but the last, which is a call of the controller.
  abbrev pub check_fails : ProtocolAuthority → ℕ → ℕ → World → Bool
  check_fails installed order_version before_version w =
      not (protocol_eq installed authority)
      || not (order_version == before_version)
      || not (before_version == as_u32 installed.version)
      || not (matches authority w.gate)

  -- The check; the answer says whether it holds.
  unfoldable pub check : ProtocolAuthority → ℕ → ℕ → World → World × Bool
  check installed order_version before_version w =
      let (controller, valid) = revalidate binding authority attempt w.controller in
      if check_fails installed order_version before_version w
      then (with_gate (quarantine authority) w, false)
      else if not valid
      then (with_gate (quarantine authority) (record w { controller = controller }), false)
      else (record w { controller = controller }, true)

  abbrev pub refused : OperationError → World → Posted
  refused error w = record { world = w; polled = false; result = err error }

  -- `post_prepared_sdk` after the version: the check and the POST.
  unfoldable pub post_checked : ProtocolAuthority → ℕ → Run → World → Posted
  unfolding check post
  post_checked installed before_version run w =
      let (checked, valid) = check installed run.order_version before_version w in
      if not valid
      then refused protocol_authority_revoked checked
      else post before_version run.after_version run.in_flight run.between run.posted
          (run.until_poll checked)

  -- The end of `sign_and_post_sdk`: the second look at the gate and the POST.
  unfoldable pub post_signed : ℕ → Run → World → Posted
  unfolding post
  post_signed before_version run w =
      if not (matches authority w.gate)
      then refused protocol_authority_revoked (with_gate (quarantine authority) w)
      else post before_version run.after_version run.in_flight run.between run.posted
          (run.until_poll w)

  -- `sign_and_post_sdk` after the version: the check, the signature, and the rest.
  unfoldable pub sign_checked : ProtocolAuthority → ℕ → Run → World → Posted
  unfolding check post_signed
  sign_checked installed before_version run w =
      let (checked, valid) = check installed run.order_version before_version w in
      if not valid then refused protocol_authority_revoked checked else elim run.signed [
        | some error ↦ refused (classify_operation_error error) (run.until_signed checked)
        | none ↦ post_signed before_version run (run.until_signed checked)
      ]

  -- The head of both functions, on the installed authority and the version.
  abbrev pub from_version :
      (ProtocolAuthority → ℕ → Run → World → Posted)
      → Option ProtocolAuthority
      → Sdk ℕ
      → Run
      → World
      → Posted
  from_version rest none version run w = refused protocol_authority_revoked w
  from_version rest (some installed) (failed error) run w =
      refused (classify_operation_error error) (run.until_check w)
  from_version rest (some installed) (answered version) run w =
      rest installed version run (run.until_check w)

  unfoldable pub post_prepared_sdk : Run → World → Posted
  unfolding post_checked
  post_prepared_sdk run w = from_version post_checked run.installed run.before_version run w

  unfoldable pub sign_and_post_sdk : Run → World → Posted
  unfolding sign_checked
  sign_and_post_sdk run w = from_version sign_checked run.installed run.before_version run w
