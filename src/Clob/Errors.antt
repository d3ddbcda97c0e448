-- ===== src/Clob/Errors.antt =====
-- The errors of the operations (clob/error.rs) and the classification of an error of the SDK
-- (clob/client.rs, retry.rs). An SDK error is its kind with what a downcast finds.
pub mod Classes
use rspm.Common.{
  ℕ, ◌*◌, Bool, true, false, not, ◌&&◌, ◌||◌, ◌==◌, Option, none, some, List, [], ◌∷◌, map, leb,
  if◌then◌else◌, codes, text_eq, is_none,
}
use rspm.Retry.{RateLimitSignal, not_rate_limited, parse_retry_after_from_body, to_ascii_lowercase}

-- A wait hint is counted in nanoseconds.
pub data OperationError : Type 0 where
  submission_revoked protocol_authority_revoked post_send_indeterminate invalid_request
        authentication no_match prepared_order_mismatch rejected :
      OperationError
  rate_limited : Option ℕ → OperationError
  transport : OperationError

pub data Outcome {ℓ} (A : Type ℓ) : Type ℓ where
  ok : A → Outcome A
  err : OperationError → Outcome A

-- The kinds of the SDK; `other` stands for the kinds that the code does not name.
pub data Kind : Type 0 where
  validation status geoblock synchronization internal web_socket other : Kind

pub record Status : Type 0 where
  pub status_code : ℕ
  pub message : List ℕ

pub record SdkError : Type 0 where
  pub kind : Kind
  pub status : Option Status
  pub validation_reason : Option (List ℕ)

abbrev pub is_server_error : ℕ → Bool
is_server_error code = leb 500 code && leb code 599

abbrev nanoseconds : Option ℕ → Option ℕ
nanoseconds none = none
nanoseconds (some seconds) = some (seconds * 1000000000)

-- `retry::classify_clob_error`.
unfoldable pub classify_clob_error : SdkError → RateLimitSignal
classify_clob_error error = elim error.status [
  | none ↦ not_rate_limited
  | some s ↦
      if not (s.status_code == 429)
      then not_rate_limited
      else RateLimitSignal.rate_limited (nanoseconds (parse_retry_after_from_body s.message))
]

-- Whether the text begins with the needle, and whether it contains it.
abbrev pub starts_with : List ℕ → List ℕ → Bool
starts_with [] text = true
starts_with (n ∷ needle) [] = false
starts_with (n ∷ needle) (b ∷ text) = n == b && starts_with needle text

abbrev pub contains : List ℕ → List ℕ → Bool
contains needle [] = starts_with needle []
contains needle (b ∷ text) = starts_with needle (b ∷ text) || contains needle text

unfoldable pub status_revokes_protocol_authority : Status → Bool
status_revokes_protocol_authority s =
    text_eq s.message (codes "order_version_mismatch")
    || text_eq s.message (codes "balance_allowance_authority")

-- The three reasons of a validation that stand for a revoked authority.
unfoldable pub reason_revokes : Option (List ℕ) → Bool
reason_revokes none = false
reason_revokes (some reason) =
    text_eq reason (codes "authenticated protocol authority is revoked")
    || text_eq reason (codes "authenticated protocol authority is unavailable")
    || text_eq reason (codes "authenticated protocol authority changed")

unfoldable pub finds_no_match : List ℕ → Bool
finds_no_match message =
    text_eq message (codes "no_match")
    || contains (codes "no orders") message
    || (contains (codes "fak") message && contains (codes "match") message)

unfoldable pub classify_status : Status → OperationError
unfolding status_revokes_protocol_authority finds_no_match
classify_status s =
    if s.status_code == 401 || s.status_code == 403
    then authentication
    else if status_revokes_protocol_authority s
    then protocol_authority_revoked
    else if finds_no_match (map to_ascii_lowercase s.message)
    then no_match
    else if is_server_error s.status_code
    then transport
    else rejected

-- The match on the kind, with the status that a downcast finds.
unfoldable pub classify_kind : Kind → Option Status → OperationError
unfolding classify_status
classify_kind validation s = invalid_request
classify_kind status none = rejected
classify_kind status (some s) = classify_status s
classify_kind geoblock s = rejected
classify_kind synchronization s = transport
classify_kind internal s = transport
classify_kind web_socket s = transport
classify_kind other s = transport

unfoldable pub classify_operation_error : SdkError → OperationError
unfolding classify_clob_error reason_revokes classify_kind
classify_operation_error error = elim (classify_clob_error error) [
  | RateLimitSignal.rate_limited hint ↦ rate_limited hint
  | not_rate_limited ↦
      if reason_revokes error.validation_reason
      then protocol_authority_revoked
      else classify_kind error.kind error.status
]

unfoldable pub kind_is_ambiguous : Kind → Option Status → Bool
kind_is_ambiguous validation s = false
kind_is_ambiguous status none = true
kind_is_ambiguous status (some s) = is_server_error s.status_code
kind_is_ambiguous geoblock s = false
kind_is_ambiguous synchronization s = true
kind_is_ambiguous internal s = true
kind_is_ambiguous web_socket s = true
kind_is_ambiguous other s = true

unfoldable pub post_response_is_ambiguous : SdkError → Bool
unfolding kind_is_ambiguous
post_response_is_ambiguous error = kind_is_ambiguous error.kind error.status
