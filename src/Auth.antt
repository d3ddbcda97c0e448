-- ===== src/Auth.antt =====
-- The authenticated REST endpoints: auth/*.rs with auth/utils and auth/types. This file has the
-- endpoint classes (types/endpoint.rs) and the redacted errors (error.rs). The prefix `Authenticated`
-- is dropped; addresses, hashes and keys are numbers.
pub mod ErrorPaths
pub mod Schema
pub mod Trades
pub mod Transport
pub mod Orders
pub mod Balance
pub mod Examples
use rspm.Common.{
  ℕ, zero, suc, Bool, true, false, not, ◌&&◌, ◌||◌, ◌==◌, Option, none, some, List, [], ◌∷◌, length,
  ltb, ◌≡◌, refl, leb, if◌then◌else◌, codes, text_eq, contains_text, all, split_at_byte,
}
use rspm.Utils.{all_ascii_digits, split_dots}

pub data Endpoint : Type 0 where
  protocol_version trades order balance_allowance positions : Endpoint

pub data RequestFailureClass : Type 0 where
  transport unauthorized forbidden rate_limited client_error server_error oversized_response
        unclassified :
      RequestFailureClass

-- `from_status`.
unfoldable pub class_of_status : ℕ → RequestFailureClass
class_of_status status =
    if status == 401
    then unauthorized
    else if status == 403
    then forbidden
    else if status == 429
    then rate_limited
    else if leb 400 status && leb status 499
    then client_error
    else if leb 500 status && leb status 599
    then server_error
    else unclassified

-- The endpoint stands for its class; a digest is a number.
pub data EndpointError : Type 0 where
  schema_decode : Endpoint → List ℕ → Option ℕ → EndpointError
  request_failed_as : Endpoint → RequestFailureClass → EndpointError

pub data Result {ℓ} (A : Type ℓ) : Type ℓ where
  ok : A → Result A
  err : EndpointError → Result A

infixl 5 ◌>>=◌
abbrev pub ◌>>=◌ {ℓ ℓ'} :
    {Wire : Type ℓ} {Value : Type ℓ'}
    → (step : Result Wire) (next : Wire → Result Value) → Result Value
err error >>= next = err error
ok wire >>= next = next wire

pub ok-injective {ℓ} : {A : Type ℓ} {a b : A} → ok a ≡ ok b → a ≡ b
ok-injective h = cc

-- Inversion of a successful bind.
pub >>=-eq-ok {ℓ ℓ'} :
    {Wire : Type ℓ} {Value : Type ℓ'} (step : Result Wire) (next : Wire → Result Value)
    → {value : Value} → (step >>= next) ≡ ok value
    → (wire : Wire) × (step ≡ ok wire) × (next wire ≡ ok value)
>>=-eq-ok (err error) next succeeded = cc
>>=-eq-ok (ok wire) next succeeded = (wire, refl, succeeded)

-- `ok_or` of an option, and an early return on a test.
abbrev pub or_else {ℓ} : {A : Type ℓ} → Option A → EndpointError → Result A
or_else none e = err e
or_else (some a) e = ok a

abbrev pub reject_if : Bool → EndpointError → Result (Unit {0})
reject_if true e = err e
reject_if false e = ok tt

abbrev pub request_failed : Endpoint → EndpointError
request_failed endpoint = request_failed_as endpoint unclassified

unfoldable pub safe_fields : Endpoint → List (List ℕ)
safe_fields protocol_version = codes "version" ∷ []
safe_fields trades =
    codes "asset_id"
    ∷ codes "bucket_index"
    ∷ codes "count"
    ∷ codes "data"
    ∷ codes "error_msg"
    ∷ codes "fee_rate_bps"
    ∷ codes "id"
    ∷ codes "last_update"
    ∷ codes "limit"
    ∷ codes "maker_address"
    ∷ codes "maker_orders"
    ∷ codes "market"
    ∷ codes "match_time"
    ∷ codes "matched_amount"
    ∷ codes "next_cursor"
    ∷ codes "order_id"
    ∷ codes "outcome"
    ∷ codes "owner"
    ∷ codes "price"
    ∷ codes "side"
    ∷ codes "size"
    ∷ codes "status"
    ∷ codes "taker_order_id"
    ∷ codes "trader_side"
    ∷ codes "transaction_hash"
    ∷ []
safe_fields order =
    codes "asset_id"
    ∷ codes "count"
    ∷ codes "created_at"
    ∷ codes "data"
    ∷ codes "expiration"
    ∷ codes "id"
    ∷ codes "limit"
    ∷ codes "market"
    ∷ codes "next_cursor"
    ∷ codes "original_size"
    ∷ codes "price"
    ∷ codes "side"
    ∷ codes "size_matched"
    ∷ codes "status"
    ∷ []
safe_fields balance_allowance = codes "allowances" ∷ codes "balance" ∷ []
safe_fields positions =
    codes "asset"
    ∷ codes "avgPrice"
    ∷ codes "conditionId"
    ∷ codes "mergeable"
    ∷ codes "outcome"
    ∷ codes "proxyWallet"
    ∷ codes "redeemable"
    ∷ codes "size"
    ∷ codes "slug"
    ∷ []

-- One bracketed index, its `[` taken: the digits, the rest from `]` on, and the check of what follows.
abbrev index_is_valid : (List ℕ → Bool) → List ℕ × List ℕ → Bool
index_is_valid more (digits, []) = false
index_is_valid more (digits, close ∷ remaining) =
    not (length digits == 0) && all_ascii_digits digits && more remaining

-- The loop over the brackets of a segment; a round takes at least two bytes.
unfoldable pub indexes_are_valid : ℕ → List ℕ → Bool
indexes_are_valid fuel [] = true
indexes_are_valid zero (b ∷ bytes) = false
indexes_are_valid (suc fuel) (b ∷ bytes) =
    let rest = index_is_valid (indexes_are_valid fuel) (split_at_byte 93 bytes) in
    if b == 91 then rest else false

unfoldable pub segment_is_safe : Endpoint → List ℕ → Bool
unfolding safe_fields indexes_are_valid
segment_is_safe endpoint segment =
    let (field, indexes) = split_at_byte 91 segment in
    contains_text field (safe_fields endpoint) && indexes_are_valid (length indexes) indexes

-- `authenticated_response_path_is_safe`.
unfoldable pub response_path_is_safe : Endpoint → List ℕ → Bool
unfolding segment_is_safe
response_path_is_safe endpoint path =
    let (segment, segments) = split_dots path in
    text_eq path (codes "?")
    || (segment_is_safe endpoint segment && all (segment_is_safe endpoint) segments)

unfoldable pub response_schema_decode : Endpoint → List ℕ → EndpointError
unfolding response_path_is_safe
response_schema_decode endpoint path =
    if response_path_is_safe endpoint path
    then schema_decode endpoint path none
    else request_failed endpoint

-- The digest of the body is the parameter `sha256`.
unfoldable pub with_response_digest : (List ℕ → ℕ) → List ℕ → EndpointError → EndpointError
with_response_digest sha256 body (schema_decode endpoint path digest) =
    schema_decode endpoint path (some (sha256 body))
with_response_digest sha256 body (request_failed_as endpoint failure_class) =
    request_failed_as endpoint failure_class
