-- ===== src/Ws/Retirement/Permits.antt =====
-- Where the permits of the process are, and what its counter of retained tasks counts.
use rspm.Common.{
  refl, Option, ℕ, suc, ◌+◌, ◌≡◌, ◌≢◌, arith, Bool, true, false, none, List, [], ◌∷◌, ◌++◌, ◌⊎◌,
  is_some,
}
use rspm.Ws.Retirement.Ledger.{FailedRetirement, bit, slots_of, drain_pass}
use rspm.Ws.Retirement.Draining.{total, drain_pass-Settles}
use rspm.Ws.Retirement.{
  drain_failed_pass, Command, retain, barrier, Process, Shared, checked_counter_increment,
  checked_counter_decrement, process_retirement_custodian, reserved,
  reserve_process_retirement_slot, poison_failed_retirements, lock_failed, retain_failed_retirement,
  count_transfer, uncount_retained, transfer_to_known_custodian, transfer_to_process_custodian,
  receive_command, retained_by_process_custodian, finish_retained,
}

abbrev pub retained_tasks : List Command → ℕ
retained_tasks [] = 0
retained_tasks (retain session ∷ commands) = suc (retained_tasks commands)
retained_tasks (barrier token ∷ commands) = retained_tasks commands

-- The permits that the process has: free, in a command, with the thread, in the fallback ledger.
abbrev pub permits_held : Process → ℕ
permits_held p = p.slots + retained_tasks p.commands + bit (is_some p.current) + slots_of p.failed

pub retained_tasks-append :
    (xs ys : List Command) → retained_tasks (xs ++ ys) ≡ retained_tasks xs + retained_tasks ys
retained_tasks-append [] ys = omega arith
retained_tasks-append (retain s ∷ xs) ys = omega (arith, retained_tasks-append xs ys)
retained_tasks-append (barrier t ∷ xs) ys = omega (arith, retained_tasks-append xs ys)

slots_of-append : (xs ys : List FailedRetirement) → slots_of (xs ++ ys) ≡ slots_of xs + slots_of ys
slots_of-append [] ys = omega arith
slots_of-append (f ∷ xs) ys = omega (arith, slots_of-append xs ys)

-- The answers of the process custodian to a request for a permit.
pub reserve-permits :
    (p : Process)
    → (((reserve_process_retirement_slot p).1 ≡ reserved)
        × (suc (permits_held (reserve_process_retirement_slot p).0) ≡ permits_held p))
      ⊎ (((reserve_process_retirement_slot p).1 ≢ reserved)
          × (permits_held (reserve_process_retirement_slot p).0 ≡ permits_held p))
unfolding reserve_process_retirement_slot
reserve-permits p = ground arith

lock_failed-permits : (p : Process) → permits_held (lock_failed p) ≡ permits_held p
unfolding lock_failed poison_failed_retirements
lock_failed-permits p = ground arith

pub retain_failed-permits :
    (session : ℕ) (slot : Bool) (p : Process) (shared : Shared)
    → permits_held (retain_failed_retirement session slot (p, shared)).0 ≡ permits_held p + bit slot
unfolding retain_failed_retirement
retain_failed-permits session slot p shared = omega (
  arith,
  lock_failed-permits p,
  slots_of-append (lock_failed p).failed (record { session = session; slot = slot } ∷ []),
)

count_transfer-permits : (p : Process) → permits_held (count_transfer p).0 ≡ permits_held p
unfolding count_transfer checked_counter_increment
count_transfer-permits p = ground arith

uncount_retained-permits : (p : Process) → permits_held (uncount_retained p) ≡ permits_held p
unfolding uncount_retained checked_counter_decrement
uncount_retained-permits p = ground arith

transfer_to_known-permits :
    (session : ℕ) (p : Process) (shared : Shared)
    → permits_held (transfer_to_known_custodian session (p, shared)).0 ≡ permits_held p + 1
unfolding transfer_to_known_custodian
transfer_to_known-permits session p shared =
    let q = (count_transfer p).0 in
    let kept = record shared { retirement = retained_by_process_custodian } in
    ground (
      arith,
      count_transfer-permits p,
      uncount_retained-permits q,
      retain_failed-permits session true q shared,
      retain_failed-permits session true (uncount_retained q) kept,
      retained_tasks-append q.commands (retain session ∷ []),
    )

-- A transfer keeps the permit, wherever the task goes.
pub transfer-permits :
    (session : ℕ) (slot : Bool) (p : Process) (shared : Shared)
    → permits_held (transfer_to_process_custodian session slot (p, shared)).0
      ≡ permits_held p + bit slot
unfolding transfer_to_process_custodian process_retirement_custodian
transfer-permits session slot p shared =
    let q = process_retirement_custodian p in
    ground (
      arith,
      retain_failed-permits session slot q shared,
      retain_failed-permits session false q shared,
      transfer_to_known-permits session q shared,
    )

pub receive-permits :
    (p : Process) → p.current ≡ none → permits_held (receive_command p).0 ≡ permits_held p
unfolding receive_command
receive-permits p idle = ground arith

pub finish-permits :
    (is_err : Bool) (p : Process) (shared : Shared)
    → is_some p.current ≡ true
    → permits_held (finish_retained is_err (p, shared)).0 ≡ permits_held p
unfolding finish_retained checked_counter_decrement
finish-permits is_err p shared busy = ground arith

slots_of-total : (failed : List FailedRetirement) → slots_of failed ≡ total (λ f. bit f.slot) failed
slots_of-total [] = refl
slots_of-total (f ∷ failed) = omega (arith, slots_of-total failed)

-- A pass over the fallback ledger frees the permits of the tasks that it takes out.
pub drain_failed-permits :
    (completions : ℕ → Option Bool) (p : Process)
    → permits_held (drain_failed_pass completions p) ≡ permits_held p
unfolding drain_failed_pass
drain_failed-permits completions p =
    let locked = lock_failed p in
    let drained = drain_pass completions locked.failed locked.drain_failed in
    omega (
      arith,
      lock_failed-permits p,
      slots_of-total drained.remaining,
      slots_of-total drained.completed,
      slots_of-total locked.failed,
      (drain_pass-Settles completions locked.failed locked.drain_failed (λ f. bit f.slot)).2,
    )
