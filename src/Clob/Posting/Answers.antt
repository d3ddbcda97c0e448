-- ===== src/Clob/Posting/Answers.antt =====
-- What an answer to a POST leaves, and what an unknown outcome does to the gate.
use rspm.Common.{
  ℕ, ◌≤◌, ◌≡◌, ◌≢◌, refl, arith, Bool, true, false, not, ◌||◌, Option, none, some, Option-cases,
  Bool-cases, ◌⊎◌, if_elim, inl, inr, if◌then◌else◌,
}
use rspm.Submission.{ProtocolAuthority, Attempt, poll_first_transport}
use rspm.Clob.Errors.{
  OperationError, err, transport, post_send_indeterminate, protocol_authority_revoked,
  submission_revoked, classify_operation_error,
}
use rspm.Clob.Errors.Classes.{
  is_submission_error, classify_operation_error-known, classify_operation_error-definite,
}
use rspm.Clob.Gate.{indeterminate, generation, quarantine, mark_indeterminate, matches}
use rspm.Clob.Posting.{
  World, with_gate, Sdk, answered, failed, is_version, PostOrderResponse, Posted,
  classify_post_order_response, classify_posted, is_unknown, revokes, settle, post, check, refused,
  Run, from_version, post_checked, post_signed, sign_checked, post_prepared_sdk, sign_and_post_sdk,
}

-- A known answer is not called unknown and not a failure of the transport.
classify_posted-known :
    (posted : Sdk PostOrderResponse)
    → is_unknown posted ≡ false
    → (classify_posted posted ≢ err post_send_indeterminate)
      × (classify_posted posted ≢ err transport)
unfolding is_unknown classify_posted
classify_posted-known (answered response) h =
    elim (Option-cases (classify_post_order_response response)) [
      | inl e ↦ absurd (ground arith)
      | inr (outcome, e) ↦ (λ k. ground arith, λ k. ground arith)
    ]
classify_posted-known (failed error) h = (
  λ k. ground (arith, classify_operation_error-known error),
  λ k. ground (arith, classify_operation_error-definite error h),
)

-- The exact authority is refused from now on.
abbrev pub IsQuarantined : ProtocolAuthority → World → Type 0
IsQuarantined authority w = generation authority ≤ w.gate.quarantined_through_generation

module _ (binding : ℕ) (attempt : Attempt) (authority : ProtocolAuthority) where
  quarantine-IsQuarantined :
      (w : World) → IsQuarantined authority (with_gate (quarantine authority) w)
  unfolding quarantine
  quarantine-IsQuarantined w = ground arith

  quarantine_under :
      (first second third : Bool) (w : World)
      → second ≡ false
      → IsQuarantined authority
          (if first || not second || third then with_gate (quarantine authority) w else w)
  quarantine_under true second third w e = quarantine-IsQuarantined w
  quarantine_under false second third w e = rw e (quarantine-IsQuarantined w)

  -- What the answer leaves.
  abbrev pub Settles : ℕ → Sdk ℕ → Sdk PostOrderResponse → Posted → Type 0
  Settles before_version after_version posted r =
      (is_unknown posted ≡ true
        → (r.result ≡ err post_send_indeterminate)
          × (r.world.gate.state ≡ indeterminate authority)
          × IsQuarantined authority r.world)
      × (is_unknown posted ≡ false
          → (r.result ≡ classify_posted posted)
            × (r.result ≢ err post_send_indeterminate)
            × (r.result ≢ err transport))
      × (revokes r.result ≡ true → IsQuarantined authority r.world)
      × (is_version before_version after_version ≡ false → IsQuarantined authority r.world)

  settle-Settles :
      (before_version : ℕ) (after_version : Sdk ℕ) (between : World → World)
      (posted : Sdk PostOrderResponse) (w : World)
      → Settles before_version after_version posted
          (settle binding attempt authority before_version after_version between posted w)
  unfolding settle mark_indeterminate
  settle-Settles before_version after_version between posted w =
      elim (Bool-cases (is_unknown posted)) [
        | inl unknown ↦
            rw (unknown, settle)
              (
                λ e. (refl, refl, ground arith),
                λ e. absurd (cc),
                λ e. ground arith,
                λ e. ground arith,
              )
        | inr known ↦
            let (not_unknown, not_transport) = classify_posted-known posted known in
            rw (known, settle)
              (
                λ e. absurd (cc),
                λ e. (refl, not_unknown, not_transport),
                λ e. rw e (quarantine-IsQuarantined (between w)),
                λ e.
                    quarantine_under (revokes (classify_posted posted))
                      (is_version before_version after_version)
                      (not (matches authority (between w).gate)) (between w) e,
              )
      ]

  settle-polled :
      (before_version : ℕ) (after_version : Sdk ℕ) (between : World → World)
      (posted : Sdk PostOrderResponse) (w : World)
      → (settle binding attempt authority before_version after_version between posted w).polled
        ≡ true
  unfolding settle
  settle-polled before_version after_version between posted w =
      elim (Bool-cases (is_unknown posted)) [
        | inl unknown ↦ rw (unknown, settle) refl
        | inr known ↦ rw (known, settle) refl
      ]

  -- What a submission leaves: where the transport got its first poll, the consequences of the answer;
  -- else an error that does not call the outcome unknown.
  abbrev pub Leaves : Run → Posted → Type 0
  Leaves run r =
      ((r.polled ≡ true)
        × ((before_version : ℕ) × ((run.before_version ≡ answered before_version)
              × Settles before_version run.after_version run.posted r)))
      ⊎ ((r.polled ≡ false)
          × (r.result ≢ err post_send_indeterminate)
          × (r.result ≡ err submission_revoked → IsQuarantined authority r.world))

  post-Leaves :
      (before_version : ℕ) (run : Run) (w : World)
      → run.before_version ≡ answered before_version
      → Leaves run (
          post binding attempt authority before_version run.after_version run.in_flight run.between
            run.posted w)
  unfolding post
  post-Leaves before_version run w v =
      let begun = record w {
        controller = (poll_first_transport binding authority false attempt w.controller).0;
      } in
      elim (Bool-cases (poll_first_transport binding authority false attempt w.controller).1) [
        | inl polled ↦
            rw (polled, post)
              (inl (
                settle-polled before_version run.after_version run.between run.posted
                    (run.in_flight begun),
                (
                  before_version,
                  (
                    v,
                    settle-Settles before_version run.after_version run.between run.posted
                        (run.in_flight begun),
                  ),
                ),
              ))
        | inr unpolled ↦
            rw (unpolled, post) (inr (refl, λ k. cc, λ k. quarantine-IsQuarantined begun))
      ]

  refused-Leaves :
      (run : Run) (error : OperationError) (w : World)
      → is_submission_error error ≡ false
      → Leaves run (refused binding attempt authority error w)
  refused-Leaves run error w h = inr (refl, λ k. ground arith, λ k. absurd (ground arith))

  post_checked-Leaves :
      (installed : ProtocolAuthority) (before_version : ℕ) (run : Run) (w : World)
      → run.before_version ≡ answered before_version
      → Leaves run (post_checked binding attempt authority installed before_version run w)
  unfolding post_checked
  post_checked-Leaves installed before_version run w v =
      let checked = check binding attempt authority installed run.order_version before_version w in
      if_elim (Leaves run) (not checked.1)
        (λ _. refused-Leaves run protocol_authority_revoked checked.0 refl)
        (λ _. post-Leaves before_version run (run.until_poll checked.0) v)

  post_signed-Leaves :
      (before_version : ℕ) (run : Run) (w : World)
      → run.before_version ≡ answered before_version
      → Leaves run (post_signed binding attempt authority before_version run w)
  unfolding post_signed
  post_signed-Leaves before_version run w v =
      if_elim (Leaves run) (not (matches authority w.gate))
        (λ _.
          refused-Leaves run protocol_authority_revoked (with_gate (quarantine authority) w) refl)
        (λ _. post-Leaves before_version run (run.until_poll w) v)

  sign_checked-Leaves :
      (installed : ProtocolAuthority) (before_version : ℕ) (run : Run) (w : World)
      → run.before_version ≡ answered before_version
      → Leaves run (sign_checked binding attempt authority installed before_version run w)
  unfolding sign_checked
  sign_checked-Leaves installed before_version run w v =
      let checked = check binding attempt authority installed run.order_version before_version w in
      if_elim (Leaves run) (not checked.1)
        (λ _. refused-Leaves run protocol_authority_revoked checked.0 refl)
        (λ _. elim (Option-cases run.signed) [
          | inl e ↦ rw e (post_signed-Leaves before_version run (run.until_signed checked.0) v)
          | inr (error, e) ↦ rw e (
              refused-Leaves run (classify_operation_error error) (run.until_signed checked.0)
                (classify_operation_error-known error))
        ])

  from_version-Leaves :
      (rest : ProtocolAuthority → ℕ → Run → World → Posted) (run : Run)
      (installed : Option ProtocolAuthority) (version : Sdk ℕ) (w : World)
      → run.before_version ≡ version
      → ((a : ProtocolAuthority) (v : ℕ) (w' : World)
          → run.before_version ≡ answered v
          → Leaves run (rest a v run w'))
      → Leaves run (from_version binding attempt authority rest installed version run w)
  from_version-Leaves rest run none version w v each =
      refused-Leaves run protocol_authority_revoked w refl
  from_version-Leaves rest run (some a) (failed error) w v each =
      refused-Leaves run (classify_operation_error error) (run.until_check w)
        (classify_operation_error-known error)
  from_version-Leaves rest run (some a) (answered version) w v each =
      each a version (run.until_check w) v

  -- Whatever others do with the gate and the controller meanwhile, a post of a prepared order leaves
  -- this. Where the transport got its first poll: an unknown outcome is reported as indeterminate, with
  -- the gate marked so and the generation quarantined; a known answer is the result, never called
  -- indeterminate or a failure of the transport; and the generation is quarantined where the answer
  -- revokes the authority or the version has changed. Otherwise the error is not called indeterminate,
  -- and a revoked submission has the generation quarantined.
  pub post_prepared_sdk-Leaves :
      (run : Run) (w : World) → Leaves run (post_prepared_sdk binding attempt authority run w)
  unfolding post_prepared_sdk
  post_prepared_sdk-Leaves run w =
      from_version-Leaves (post_checked binding attempt authority) run run.installed
        run.before_version w refl (λ a v w' e. post_checked-Leaves a v run w' e)

  -- Whatever others do with the gate and the controller meanwhile, the signature and post of an order
  -- leave this. Where the transport got its first poll: an unknown outcome is reported as
  -- indeterminate, with the gate marked so and the generation quarantined; a known answer is the
  -- result, never called indeterminate or a failure of the transport; and the generation is
  -- quarantined where the answer revokes the authority or the version has changed. Otherwise the error
  -- is not called indeterminate, and a revoked submission has the generation quarantined.
  pub sign_and_post_sdk-Leaves :
      (run : Run) (w : World) → Leaves run (sign_and_post_sdk binding attempt authority run w)
  unfolding sign_and_post_sdk
  sign_and_post_sdk-Leaves run w =
      from_version-Leaves (sign_checked binding attempt authority) run run.installed
        run.before_version w refl (λ a v w' e. sign_checked-Leaves a v run w' e)
