-- ===== src/Clob/Posting/Checks.antt =====
-- What holds when the transport of a submission gets its first poll, and what an unknown outcome ends.
use rspm.Common.{ℕ, ◌≡◌, ◌≢◌, true, false, none, some, Bool-cases, inl, inr}
use rspm.Submission.{ProtocolAuthority, Attempt, still_active}
use rspm.Clob.Errors.{err, post_send_indeterminate}
use rspm.Clob.Gate.{Gate, default_gate, permit, matches}
use rspm.Clob.Gate.Histories.{GateReach, quarantined_forever}
use rspm.Clob.Posting.{World, answered, as_u32, Run, is_unknown, sign_and_post_sdk}
use rspm.Clob.Posting.Answers.{sign_and_post_sdk-Leaves}

module _ (binding : ℕ) (attempt : Attempt) (authority : ProtocolAuthority) where
  -- The exact authority of the order, and the two looks.
  abbrev Polled : Run → Type 0
  Polled run =
      (run.installed ≡ some authority)
      × (run.before_version ≡ answered (as_u32 authority.version))
      × (run.order_version ≡ as_u32 authority.version)
      × (run.signed ≡ none)
      × ((w : World) × ((matches authority w.gate ≡ true)
            × (still_active attempt (run.until_poll w).controller ≡ true)))

  -- After a submission whose outcome is reported as indeterminate, in a gate with any history, the
  -- transport had been polled, and the exact authority is never permitted and never matches again.
  pub indeterminate_forever :
      (run : Run) (w : World) {g : Gate}
      → (sign_and_post_sdk binding attempt authority run w).result ≡ err post_send_indeterminate
      → GateReach default_gate (sign_and_post_sdk binding attempt authority run w).world.gate
      → GateReach (sign_and_post_sdk binding attempt authority run w).world.gate g
      → ((sign_and_post_sdk binding attempt authority run w).polled ≡ true)
        × (matches authority g ≡ false)
        × (permit g ≢ some authority)
  indeterminate_forever run w unknown r s =
      elim (sign_and_post_sdk-Leaves binding attempt authority run w) [
        | inr (unpolled, known, _) ↦ absurd (known unknown)
        | inl (polled, (version, (v, (is_lost, is_known, _, _)))) ↦
            elim (Bool-cases (is_unknown run.posted)) [
              | inr known ↦ absurd ((is_known known).1 unknown)
              | inl lost ↦
                  let (never, no_permit) = quarantined_forever authority r ((is_lost lost).2) s in
                  (polled, never, no_permit)
            ]
      ]
