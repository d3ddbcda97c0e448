-- ===== src/Clob/Attempts/Examples.antt =====
-- An order of an active authority: accepted, of an unknown outcome, and throttled once.
use rspm.Common.{
  ℕ, ◌≤◌, ◌≡◌, ◌≢◌, refl, arith, true, false, Option, none, some, List, [], length, codes, ◌==◌,
  if◌then◌else◌,
}
use rspm.Auth.Schema.{venue_identifier_is_valid}
use rspm.Submission.{
  ProtocolAuthority, v2, Attempt, protocol_eq, is_active, lock_active, still_active, revalidate,
  poll_first_transport,
}
use rspm.Ws.State.{authority_eq}
use rspm.Clob.Errors.{ok, err, status, post_send_indeterminate, no_match}
use rspm.Clob.Gate.{
  Gate, default_gate, generation, can_activate, activate, activate_if, permit, matches, close,
  quarantine,
}
use rspm.Clob.Gate.Histories.{
  GateReach, here, next, activates, marks, closes, quarantines, quarantined_forever,
}
use rspm.Clob.Posting.{
  World, Sdk, answered, failed, PostOrderResponse, PostOrderOutcome, accepted,
  classify_post_order_response, classify_posted, is_unknown, settle, post, check, Run, post_signed,
  sign_checked, sign_and_post_sdk,
}
use rspm.Clob.Posting.Answers.{Leaves, sign_and_post_sdk-Leaves}
use rspm.Clob.Posting.Checks.{indeterminate_forever}
use rspm.Clob.Submit.{Retried}
use rspm.Clob.Attempts.{ClientRun, prepared_attempt, submit, order_id_of}
use rspm.Clob.Attempts.Identity.{submit_prepared-id}

abbrev authority : ProtocolAuthority
authority = record { version = v2; credentials = record { identity = 7; generation = 3 } }

abbrev attempt : Attempt
attempt = record { binding = 1; revocation_epoch = 0; protocol_authority = authority }

abbrev open_gate : Gate
open_gate = (activate_if authority true default_gate).0

abbrev world : World
world = record {
  gate = open_gate;
  controller = record {
    revocation_epoch = 0;
    poisoned = false;
    active = some (record { revocation_epoch = 0; protocol_authority = authority });
    active_mutex = false;
    readers = 1;
    writer = false;
  };
}

abbrev run : Sdk PostOrderResponse → Run
run posted = record {
  installed = some authority;
  before_version = answered 2;
  order_version = 2;
  signed = none;
  posted = posted;
  after_version = answered 2;
  until_check = λ w. w;
  until_signed = λ w. w;
  until_poll = λ w. w;
  in_flight = λ w. w;
  between = λ w. w;
}

abbrev acceptance : Sdk PostOrderResponse
acceptance = answered (record { success = true; order_id = codes "o-1" })

abbrev throttled : Sdk PostOrderResponse
throttled = failed (record {
  kind = status;
  status = some (record { status_code = 429; message = codes "retry_after=1" });
  validation_reason = none;
})

-- A response that says success with no identifier.
abbrev nameless : Sdk PostOrderResponse
nameless = answered (record { success = true; order_id = [] })

sign_and_post_sdk-Leaves_example :
    Leaves 1 attempt authority
      (run acceptance)
      (sign_and_post_sdk 1 attempt authority (run acceptance) world)
sign_and_post_sdk-Leaves_example =
    sign_and_post_sdk-Leaves 1 attempt authority (run acceptance) world

abbrev after_loss : World
after_loss = (sign_and_post_sdk 1 attempt authority (run nameless) world).world

test_lost :
    (sign_and_post_sdk 1 attempt authority (run nameless) world).result
    ≡ err post_send_indeterminate
unfolding sign_and_post_sdk sign_checked post_signed post settle check classify_posted is_unknown
    classify_post_order_response venue_identifier_is_valid matches activate_if can_activate activate
    default_gate revalidate poll_first_transport lock_active still_active is_active protocol_eq
    authority_eq
test_lost = refl

loses : GateReach default_gate after_loss.gate
unfolding sign_and_post_sdk sign_checked post_signed post settle check classify_posted is_unknown
    classify_post_order_response venue_identifier_is_valid matches activate_if can_activate activate
    default_gate revalidate poll_first_transport lock_active still_active is_active protocol_eq
    authority_eq
loses = next (next here (activates authority true)) (marks authority)

indeterminate_forever_example :
    ((sign_and_post_sdk 1 attempt authority (run nameless) world).polled ≡ true)
    × (matches authority (activate_if authority true (close after_loss.gate)).0 ≡ false)
    × (permit (activate_if authority true (close after_loss.gate)).0 ≢ some authority)
indeterminate_forever_example =
    indeterminate_forever 1 attempt authority (run nameless) world test_lost loses
      (next (next here closes) (activates authority true))

quarantined_open :
    generation authority ≤ (quarantine authority open_gate).quarantined_through_generation
unfolding quarantine activate_if can_activate activate default_gate
quarantined_open = omega arith

quarantined_forever_example :
    (matches authority (quarantine authority open_gate) ≡ false)
    × (permit (quarantine authority open_gate) ≢ some authority)
quarantined_forever_example =
    quarantined_forever authority
      (next (next here (activates authority true)) (quarantines authority)) quarantined_open here

abbrev client_run : ℕ → ClientRun
client_run n = record {
  sdk_version = answered 2;
  until_matched = λ w. w;
  built = none;
  until_built = λ w. w;
  run = run (if n == 0 then throttled else acceptance);
}

abbrev grant : ℕ × World → (ℕ × World) × Option Attempt
grant s = (s, some attempt)

abbrev sleep : ℕ → ℕ × World → ℕ × World
sleep delay s = s

submit_prepared-id_example :
    (r : Retried (ℕ × World) PostOrderOutcome) × ((submit 1
          (λ n. prepared_attempt 1 (codes "o-1") (client_run n))
          grant
          sleep
          world
        ≡ some r)
      × (length r.delays ≤ 2)
      × ((id : List ℕ) → r.result ≡ ok (accepted id) → id ≡ codes "o-1"))
submit_prepared-id_example = submit_prepared-id 1 (codes "o-1") client_run grant sleep world

test_miss : order_id_of true (err no_match) ≡ ok none
unfolding order_id_of
test_miss = refl
