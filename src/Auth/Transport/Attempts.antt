-- ===== src/Auth/Transport/Attempts.antt =====
-- The attempts of a call: the first success ends it.
use rspm.Common.{
  ℕ, zero, suc, ◌+◌, ◌≤◌, ◌<◌, ◌≡◌, refl, arith, Option, none, some, List, ◌⊎◌, inl, inr, subst,
  Bool, true, false, Option-cases,
}
use rspm.Auth.{Endpoint, EndpointError, Result, ok, err, request_failed}
use rspm.Auth.Transport.{get, Response, send_once, last_or_failed, send_loop, send}

Result-cases :
    {A : Type 0} (r : Result A) → ((a : A) × (r ≡ ok a)) ⊎ ((e : EndpointError) × (r ≡ err e))
Result-cases (ok a) = inl (a, refl)
Result-cases (err e) = inr (e, refl)

order : (a b : ℕ) → a ≤ b → (a ≡ b) ⊎ (suc a ≤ b)
order a b h = ground arith

module _ (endpoint : Endpoint) (respond : ℕ → Option Response) where
  abbrev Fails : ℕ → Type 0
  Fails n = (e : EndpointError) × (send_once endpoint (respond n) ≡ err e)

  -- The error of the attempt before.
  abbrev Last : ℕ → EndpointError → Type 0
  Last zero e = e ≡ request_failed endpoint
  Last (suc n) e = send_once endpoint (respond n) ≡ err e

  abbrev FailsWithin : ℕ → ℕ → Type 0
  FailsWithin first end = (j : ℕ) → first ≤ j → j < end → Fails j

  -- The first success among the attempts from one on, or the last failure.
  abbrev Outcome : ℕ → ℕ → ℕ × Result (List ℕ) → Type 0
  Outcome left made answer =
      ((n : ℕ) × (body : List ℕ) × (made ≤ n)
        × (n < made + left)
        × FailsWithin made n
        × (send_once endpoint (respond n) ≡ ok body)
        × (answer ≡ (suc n, ok body)))
      ⊎ ((e : EndpointError) × (FailsWithin made (made + left)
            × Last (made + left) e
            × (answer ≡ (made + left, err e))))

  extend :
      (made end : ℕ) {e : EndpointError}
      → send_once endpoint (respond made) ≡ err e
      → FailsWithin (suc made) end
      → FailsWithin made end
  extend made end {e} failed more j low high = elim (order made j low) [
    | inl same ↦ (e, rw (← same) failed)
    | inr above ↦ more j above high
  ]

  send_loop-Outcome :
      (left made : ℕ) (last : Option EndpointError)
      → Last made (last_or_failed endpoint last)
      → Outcome left made (send_loop endpoint respond left made last)
  unfolding send_loop
  send_loop-Outcome zero made last h = inr (
    last_or_failed endpoint last,
    (
      λ j low high. absurd (omega arith),
      (let same : made ≡ made + 0 = omega arith in rw (← same) h),
      (let same : made ≡ made + 0 = omega arith in rw (← same) refl),
    ),
  )
  send_loop-Outcome (suc left) made last h =
      elim (Result-cases (send_once endpoint (respond made))) [
        | inl (body, e) ↦ inl (
          made,
          body,
          omega arith,
          omega arith,
          λ j low high. absurd (omega arith),
          e,
          rw (e, send_loop) refl,
        )
        | inr (error, e) ↦ elim (send_loop-Outcome left (suc made) (some error) e) [
          | inl (n, body, low, high, failed, sent, answer) ↦ inl (
            n,
            body,
            omega arith,
            omega arith,
            extend made n e failed,
            sent,
            rw (e, send_loop) answer,
          )
          | inr (last_error, (failed, lasting, answer)) ↦
              let same : suc made + left ≡ made + suc left = omega arith in
              inr (
                last_error,
                (
                  rw (← same) (extend made (suc made + left) e failed),
                  rw (← same) lasting,
                  rw (← same) (rw (e, send_loop) answer),
                ),
              )
        ]
      ]

  -- A call makes its attempts in order up to the first that succeeds and answers with its body; if
  -- none of them does, it has made all of them and answers with the error of the last, or with an
  -- unclassified failure where it may make none.
  pub send_lem :
      (max_attempts : ℕ)
      → ((n : ℕ) × (body : List ℕ) × (n < max_attempts)
          × ((j : ℕ) → j < n → Fails j)
          × (send_once endpoint (respond n) ≡ ok body)
          × (send max_attempts endpoint respond ≡ (suc n, ok body)))
        ⊎ ((e : EndpointError) × (((j : ℕ) → j < max_attempts → Fails j)
              × Last max_attempts e
              × (send max_attempts endpoint respond ≡ (max_attempts, err e))))
  unfolding send
  send_lem max_attempts = elim (send_loop-Outcome max_attempts 0 none refl) [
    | inl (n, body, low, high, failed, sent, answer) ↦
        inl (n, body, omega arith, λ j b. failed j (omega arith) b, sent, answer)
    | inr (e, (failed, lasting, answer)) ↦
        let same : 0 + max_attempts ≡ max_attempts = omega arith in
        inr (
          e,
          (
            λ j b. failed j (omega arith) (omega arith),
            subst (λ n. Last n e) same lasting,
            rw same at answer,
          ),
        )
  ]

send_bounded :
    (endpoint : Endpoint) (respond : ℕ → Option Response) (max_attempts : ℕ)
    → (send max_attempts endpoint respond).0 ≤ max_attempts
send_bounded endpoint respond max_attempts = elim (send_lem endpoint respond max_attempts) [
  | inl (n, body, high, failed, sent, answer) ↦ rw answer (omega arith)
  | inr (e, (failed, lasting, answer)) ↦ rw answer (omega arith)
]

module _ {Headers : Type 0} (respond : Option Headers → ℕ → Option Response) where
  -- An authenticated call makes at most its attempts, and any only to a safe endpoint with the time
  -- known and the headers signed.
  pub get_bounded :
      (endpoint_is_safe : Bool) (max_attempts : ℕ) (endpoint : Endpoint) (unix_timestamp : Option ℕ)
      (l2_headers : ℕ → Option Headers)
      → ((get endpoint_is_safe respond max_attempts endpoint unix_timestamp l2_headers).0
          ≤ max_attempts)
        × (((get endpoint_is_safe respond max_attempts endpoint unix_timestamp l2_headers).0 ≡ 0)
            ⊎ ((endpoint_is_safe ≡ true)
                × ((timestamp : ℕ) × (headers : Headers) × (unix_timestamp ≡ some timestamp)
                    × (l2_headers timestamp ≡ some headers))))
  unfolding get
  get_bounded false max_attempts endpoint unix_timestamp l2_headers = (omega arith, inl refl)
  get_bounded true max_attempts endpoint none l2_headers = (omega arith, inl refl)
  get_bounded true max_attempts endpoint (some timestamp) l2_headers =
      elim (Option-cases (l2_headers timestamp)) [
        | inl unsigned ↦ (rw (unsigned, get) (omega arith), inl (rw (unsigned, get) refl))
        | inr (headers, signed) ↦ (
          rw (signed, get) (send_bounded endpoint (respond (some headers)) max_attempts),
          inr (refl, (timestamp, headers, refl, signed)),
        )
      ]
