-- ===== src/Auth/Transport/Bodies.antt =====
-- A body is accepted exactly where its chunks were all read and it is within the cap.
use rspm.Common.{
  Option-cases, Bool, ℕ, ◌+◌, ◌-◌, ◌^◌, ◌≤◌, ◌≡◌, ◌↔◌, refl, sym, ap, ◌∙◌, arith, true, false,
  Option, none, some, List, [], ◌∷◌, ◌++◌, length, length-append, min, ltb, Bool-cases, inl, inr,
  ◌>>=◌,
}
use mathlib.Core.List.{append-nil, append_assoc}
use rspm.Auth.{Endpoint, ok, ok-injective}
use rspm.Auth.Transport.{
  Response, read_chunks, max_response_bytes, is_success, declares_too_much, send_once,
}

-- The chunks in one piece, where each was read.
abbrev pub whole : List (Option (List ℕ)) → Option (List ℕ)
whole [] = some []
whole (none ∷ chunks) = none
whole (some chunk ∷ chunks) = do rest ← whole chunks; some (chunk ++ rest)

abbrev pub IsBody : List (Option (List ℕ)) → List ℕ → List ℕ → Type 0
IsBody chunks start body =
    (rest : List ℕ) × (whole chunks ≡ some rest)
    × (body ≡ start ++ rest)
    × (length body ≤ max_response_bytes)

abbrev exceeds : List ℕ → List ℕ → Bool
exceeds body chunk = ltb max_response_bytes (min (length body + length chunk) (2 ^ 64 - 1))

read_chunks-ok :
    (endpoint : Endpoint) (start : List ℕ) (chunks : List (Option (List ℕ))) (body : List ℕ)
    → length start ≤ max_response_bytes
    → read_chunks endpoint start chunks ≡ ok body
    → IsBody chunks start body
unfolding read_chunks
read_chunks-ok endpoint start [] body h e =
    let same = ok-injective e in ([], refl, sym same ∙ sym (append-nil start), rw same at h)
read_chunks-ok endpoint start (none ∷ chunks) body h e = absurd (cc)
read_chunks-ok endpoint start (some chunk ∷ chunks) body h e =
    elim (Bool-cases (exceeds start chunk)) [
      | inl over ↦ absurd (ground arith)
      | inr within ↦
          let (rest, w, same, le) =
            read_chunks-ok endpoint (start ++ chunk) chunks body
              (ground (arith, length-append start chunk)) (rw (within, read_chunks) at e) in
          (chunk ++ rest, rw w refl, same ∙ append_assoc start chunk rest, le)
    ]

IsBody-read :
    (endpoint : Endpoint) (start : List ℕ) (chunks : List (Option (List ℕ))) (body : List ℕ)
    → IsBody chunks start body
    → read_chunks endpoint start chunks ≡ ok body
unfolding read_chunks
IsBody-read endpoint start [] body (rest, w, e, le) =
    let nothing : [] ≡ rest = cc in ap ok (sym (append-nil start) ∙ rw nothing (sym e))
IsBody-read endpoint start (none ∷ chunks) body (rest, w, e, le) = absurd (cc)
IsBody-read endpoint start (some chunk ∷ chunks) body (rest, w, e, le) =
    elim (Option-cases (whole chunks)) [
      | inl missing ↦ absurd (ground arith)
      | inr (more, found) ↦
          let split : chunk ++ more ≡ rest = ground arith in
          let joined : body ≡ (start ++ chunk) ++ more =
            e ∙ rw (← split) (sym (append_assoc start chunk more)) in
          let within : exceeds start chunk ≡ false = ground (
            arith,
            length-append (start ++ chunk) more,
            length-append start chunk,
            ap length joined,
          ) in
          rw within (IsBody-read endpoint (start ++ chunk) chunks body (more, found, joined, le))
    ]

abbrev pub Accepted : Option Response → List ℕ → Type 0
Accepted reply body =
    (response : Response) × ((reply ≡ some response)
      × (is_success response.status ≡ true)
      × (declares_too_much response.content_length ≡ false)
      × (whole response.chunks ≡ some body)
      × (length body ≤ max_response_bytes))

send_once-Accepted :
    (endpoint : Endpoint) (reply : Option Response) (body : List ℕ)
    → send_once endpoint reply ≡ ok body
    → Accepted reply body
unfolding send_once
send_once-Accepted endpoint none body h = absurd (cc)
send_once-Accepted endpoint (some response) body h =
    let success : is_success response.status ≡ true = ground arith in
    let small : declares_too_much response.content_length ≡ false = ground arith in
    let (rest, w, same, le) =
      read_chunks-ok endpoint [] response.chunks body (omega arith)
        (rw (success, small, send_once) at h) in
    (response, (refl, success, small, rw same w, le))

Accepted-send_once :
    (endpoint : Endpoint) (reply : Option Response) (body : List ℕ)
    → Accepted reply body
    → send_once endpoint reply ≡ ok body
unfolding send_once
Accepted-send_once endpoint reply body (response, (e, success, small, w, le)) =
    rw (e, success, small, send_once)
      (IsBody-read endpoint [] response.chunks body (body, w, refl, le))

-- A request yields a body exactly where a response came, its status is from 200 to 299, it declares no
-- length above the cap, all of its chunks could be read, and the body is their concatenation and at
-- most 8 MiB long.
pub send_once-ok :
    (endpoint : Endpoint) (reply : Option Response) (body : List ℕ)
    → (send_once endpoint reply ≡ ok body) ↔ (
        (response : Response) × ((reply ≡ some response)
          × (is_success response.status ≡ true)
          × (declares_too_much response.content_length ≡ false)
          × (whole response.chunks ≡ some body)
          × (length body ≤ max_response_bytes)))
send_once-ok endpoint reply body =
    (send_once-Accepted endpoint reply body, Accepted-send_once endpoint reply body)
