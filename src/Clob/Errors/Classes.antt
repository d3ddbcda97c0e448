-- ===== src/Clob/Errors/Classes.antt =====
-- What the classes of a post's error say.
use rspm.Common.{ℕ, ◌≡◌, ◌≢◌, refl, arith, Bool, false, true, Option, none, some}
use rspm.Clob.Errors.{
  OperationError, submission_revoked, prepared_order_mismatch, post_send_indeterminate,
  rate_limited, transport, SdkError, Status, Kind, classify_clob_error, classify_status,
  classify_kind, kind_is_ambiguous, classify_operation_error, post_response_is_ambiguous,
  is_server_error, validation, status, geoblock, synchronization, internal, web_socket, other,
}

classify_status-definite :
    (s : Status) → is_server_error s.status_code ≡ false → classify_status s ≢ transport
unfolding classify_status
classify_status-definite s h = ground arith

classify_kind-definite :
    (kind : Kind) (s : Option Status)
    → kind_is_ambiguous kind s ≡ false
    → classify_kind kind s ≢ transport
unfolding kind_is_ambiguous classify_kind
classify_kind-definite validation s h = λ e. cc
classify_kind-definite status none h = λ e. cc
classify_kind-definite status (some s) h = classify_status-definite s h
classify_kind-definite geoblock s h = λ e. cc
classify_kind-definite synchronization s h = absurd (cc)
classify_kind-definite internal s h = absurd (cc)
classify_kind-definite web_socket s h = absurd (cc)
classify_kind-definite other s h = absurd (cc)

-- An error that proves an answer of the venue is not classified as a failure of the transport.
pub classify_operation_error-definite :
    (error : SdkError)
    → post_response_is_ambiguous error ≡ false
    → classify_operation_error error ≢ transport
unfolding classify_operation_error post_response_is_ambiguous
classify_operation_error-definite error h =
    ground (arith, classify_kind-definite error.kind error.status h)

classify_status-waits : (s : Status) {hint : Option ℕ} → classify_status s ≢ rate_limited hint
unfolding classify_status
classify_status-waits s h = ground arith

classify_kind-waits :
    (kind : Kind) (s : Option Status) {hint : Option ℕ} → classify_kind kind s ≢ rate_limited hint
unfolding classify_kind
classify_kind-waits validation s h = cc
classify_kind-waits status none h = cc
classify_kind-waits status (some s) h = classify_status-waits s h
classify_kind-waits geoblock s h = cc
classify_kind-waits synchronization s h = cc
classify_kind-waits internal s h = cc
classify_kind-waits web_socket s h = cc
classify_kind-waits other s h = cc

-- Only the status 429 is classified as a rate limit.
pub classify_operation_error-rate_limited :
    (error : SdkError) {hint : Option ℕ}
    → classify_operation_error error ≡ rate_limited hint
    → (s : Status) × (error.status ≡ some s) × (s.status_code ≡ 429)
unfolding classify_operation_error classify_clob_error
classify_operation_error-rate_limited error h =
    ground (arith, classify_kind-waits error.kind error.status)

-- The errors that only a submission reports: an error of the SDK is never classified as one.
abbrev pub is_submission_error : OperationError → Bool
is_submission_error submission_revoked = true
is_submission_error post_send_indeterminate = true
is_submission_error prepared_order_mismatch = true
is_submission_error _ = false

classify_status-known : (s : Status) → is_submission_error (classify_status s) ≡ false
unfolding classify_status
classify_status-known s = ground arith

classify_kind-known :
    (kind : Kind) (s : Option Status) → is_submission_error (classify_kind kind s) ≡ false
unfolding classify_kind
classify_kind-known validation s = refl
classify_kind-known status none = refl
classify_kind-known status (some s) = classify_status-known s
classify_kind-known geoblock s = refl
classify_kind-known synchronization s = refl
classify_kind-known internal s = refl
classify_kind-known web_socket s = refl
classify_kind-known other s = refl

pub classify_operation_error-known :
    (error : SdkError) → is_submission_error (classify_operation_error error) ≡ false
unfolding classify_operation_error
classify_operation_error-known error = ground (arith, classify_kind-known error.kind error.status)
