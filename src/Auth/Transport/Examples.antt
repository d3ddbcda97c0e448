-- ===== src/Auth/Transport/Examples.antt =====
-- A call whose first attempt is throttled and whose second has a body in two chunks.
use rspm.Common.{
  ℕ, suc, ◌≤◌, ◌<◌, ◌≡◌, ◌↔◌, refl, true, false, Option, none, some, List, [], ◌∷◌, ◌⊎◌, ◌==◌,
  if◌then◌else◌, codes,
}
use rspm.Auth.{
  EndpointError, trades, ok, err, request_failed_as, rate_limited, class_of_status, transport,
}
use rspm.Auth.Transport.{
  Response, max_attempts, max_response_bytes, is_success, declares_too_much, read_chunks, send_once,
  send_loop, send,
}
use rspm.Auth.Transport.Bodies.{whole, send_once-ok}
use rspm.Auth.Transport.Attempts.{send_lem}

abbrev page : Response
page = record {
  status = 200;
  content_length = some 4;
  chunks = some (codes "[1") ∷ some (codes ",]") ∷ [];
}

abbrev throttled : Response
throttled = record { status = 429; content_length = none; chunks = [] }

abbrev respond : ℕ → Option Response
respond attempt = if attempt == 0 then some throttled else some page

test_send : send max_attempts trades respond ≡ (2, ok (codes "[1,]"))
unfolding send send_loop send_once read_chunks class_of_status
test_send = refl

test_one_attempt : send 1 trades respond ≡ (1, err (request_failed_as trades rate_limited))
unfolding send send_loop send_once read_chunks class_of_status
test_one_attempt = refl

test_aborted :
    send_once trades (some (record page { chunks = some (codes "[1") ∷ none ∷ [] }))
    ≡ err (request_failed_as trades transport)
unfolding send_once read_chunks
test_aborted = refl

send_once-ok_example : (send_once trades (some page) ≡ ok (codes "[1,]")) ↔ (
    (response : Response) × ((some page ≡ some response)
      × (is_success response.status ≡ true)
      × (declares_too_much response.content_length ≡ false)
      × (whole response.chunks ≡ some (codes "[1,]"))
      × (4 ≤ max_response_bytes)))
send_once-ok_example = send_once-ok trades (some page) (codes "[1,]")

send_lem_example :
    ((n : ℕ) × (body : List ℕ) × (n < 2)
      × ((j : ℕ) → j < n → (e : EndpointError) × (send_once trades (respond j) ≡ err e))
      × (send_once trades (respond n) ≡ ok body)
      × (send 2 trades respond ≡ (suc n, ok body)))
    ⊎ ((e : EndpointError) × (((j : ℕ)
            → j < 2
            → (e' : EndpointError) × (send_once trades (respond j) ≡ err e'))
          × (send_once trades (respond 1) ≡ err e)
          × (send 2 trades respond ≡ (2, err e))))
send_lem_example = send_lem trades respond 2
