-- ===== src/Ws/Retirement/Ledger.antt =====
-- retirement/failed.rs: the fallback ledger and one pass of `drain_retirements` over it.
use rspm.Common.{
  ℕ, zero, suc, ◌+◌, Bool, true, false, ◌||◌, Option, none, some, List, [], ◌∷◌, length,
}
use rspm.Common.Vectors.{get_elem?, swap_remove}

-- An entry of the fallback ledger; its task has been aborted.
pub record FailedRetirement : Type 0 where
  pub session : ℕ
  pub slot : Bool

pub record Drained : Type 0 where
  pub remaining : List FailedRetirement
  pub completed : List FailedRetirement
  pub drain_failed : Bool

-- `completions` answers `now_or_never`: none while the task runs, else whether it ended by an error
-- other than its cancellation. A completed task's channel is marked disconnected and its retirement
-- cancelled; its permit is dropped.
module _ (completions : ℕ → Option Bool) where
  -- The loop over the index; a round passes an entry or takes one out.
  unfoldable pub drain_loop : ℕ → ℕ → List FailedRetirement → List FailedRetirement → Bool → Drained
  unfolding swap_remove
  drain_loop zero index failed completed drain_failed = record {
    remaining = failed;
    completed = completed;
    drain_failed = drain_failed;
  }
  drain_loop (suc fuel) index failed completed drain_failed = elim (get_elem? failed index) [
    | none ↦ record { remaining = failed; completed = completed; drain_failed = drain_failed }
    | some entry ↦ elim (completions entry.session) [
      | none ↦ drain_loop fuel (suc index) failed completed drain_failed
      | some bad ↦
          drain_loop fuel index (swap_remove index failed) (entry ∷ completed) (drain_failed || bad)
    ]
  ]

  unfoldable pub drain_pass : List FailedRetirement → Bool → Drained
  unfolding drain_loop
  drain_pass failed drain_failed = drain_loop (length failed) 0 failed [] drain_failed

abbrev pub bit : Bool → ℕ
bit true = 1
bit false = 0

-- The permits that entries own.
abbrev pub slots_of : List FailedRetirement → ℕ
slots_of [] = 0
slots_of (f ∷ failed) = bit f.slot + slots_of failed
