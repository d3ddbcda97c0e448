-- ===== src/Auth/Transport.antt =====
-- auth/client.rs: the shared recovery transport. The HTTP client is a parameter: what the n-th request
-- is answered with. The check of the host, the clock and the signed headers are inputs.
pub mod Bodies
pub mod Attempts
pub mod Examples
use rspm.Common.{
  ℕ, zero, suc, ◌+◌, ◌-◌, ◌^◌, Bool, false, not, ◌&&◌, Option, none, some, List, [], ◌∷◌, ◌++◌,
  length, min, leb, ltb, if◌then◌else◌, ◌>>=◌,
}
use rspm.Auth.{
  Endpoint, EndpointError, Result, ok, err, transport, oversized_response, request_failed_as,
  request_failed, class_of_status,
}

abbrev pub max_attempts : ℕ
max_attempts = 2

abbrev pub max_response_bytes : ℕ
max_response_bytes = 8388608

-- A chunk that cannot be read is `none`; the list ends where the body does.
pub record Response : Type 0 where
  pub status : ℕ
  pub content_length : Option ℕ
  pub chunks : List (Option (List ℕ))

-- The loop over the chunks. A length is a `usize` of 64 bits, and the sum saturates.
unfoldable pub read_chunks : Endpoint → List ℕ → List (Option (List ℕ)) → Result (List ℕ)
read_chunks endpoint body [] = ok body
read_chunks endpoint body (none ∷ chunks) = err (request_failed_as endpoint transport)
read_chunks endpoint body (some chunk ∷ chunks) =
    let rest = read_chunks endpoint (body ++ chunk) chunks in
    if ltb max_response_bytes (min (length body + length chunk) (2 ^ 64 - 1))
    then err (request_failed_as endpoint oversized_response)
    else rest

abbrev pub is_success : ℕ → Bool
is_success status = leb 200 status && ltb status 300

abbrev pub declares_too_much : Option ℕ → Bool
declares_too_much none = false
declares_too_much (some length) = ltb max_response_bytes length

-- `none` where no response comes.
unfoldable pub send_once : Endpoint → Option Response → Result (List ℕ)
unfolding read_chunks
send_once endpoint none = err (request_failed_as endpoint transport)
send_once endpoint (some response) =
    if not (is_success response.status)
    then err (request_failed_as endpoint (class_of_status response.status))
    else if declares_too_much response.content_length
    then err (request_failed_as endpoint oversized_response)
    else read_chunks endpoint [] response.chunks

-- `last_error.unwrap_or_else(…)`.
abbrev pub last_or_failed : Endpoint → Option EndpointError → EndpointError
last_or_failed endpoint none = request_failed endpoint
last_or_failed endpoint (some error) = error

-- The attempts left, the number of those made and the last error; the answer comes with the number of
-- requests.
unfoldable pub send_loop :
    Endpoint → (ℕ → Option Response) → ℕ → ℕ → Option EndpointError → ℕ × Result (List ℕ)
send_loop endpoint respond zero made last_error = (made, err (last_or_failed endpoint last_error))
send_loop endpoint respond (suc left) made last_error = elim (send_once endpoint (respond made)) [
  | ok body ↦ (suc made, ok body)
  | err error ↦ send_loop endpoint respond left (suc made) (some error)
]

unfoldable pub send : ℕ → Endpoint → (ℕ → Option Response) → ℕ × Result (List ℕ)
unfolding send_loop
send max_attempts endpoint respond = send_loop endpoint respond max_attempts 0 none

module _ {Headers : Type 0} (endpoint_is_safe : Bool)
    (respond : Option Headers → ℕ → Option Response) where
  unfoldable pub get : ℕ → Endpoint → Option ℕ → (ℕ → Option Headers) → ℕ × Result (List ℕ)
  unfolding send
  get max_attempts endpoint unix_timestamp l2_headers =
      if not endpoint_is_safe
      then (0, err (request_failed endpoint))
      else elim (unix_timestamp >>= l2_headers) [
        | none ↦ (0, err (request_failed endpoint))
        | some headers ↦ send max_attempts endpoint (respond (some headers))
      ]

  unfoldable pub get_public : ℕ → Endpoint → ℕ × Result (List ℕ)
  unfolding send
  get_public max_attempts endpoint =
      if not endpoint_is_safe
      then (0, err (request_failed endpoint))
      else send max_attempts endpoint (respond none)
