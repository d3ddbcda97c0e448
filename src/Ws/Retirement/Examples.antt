-- ===== src/Ws/Retirement/Examples.antt =====
-- A session that connects, is dropped with its task, and whose task the custodian waits for.
use rspm.Common.{
  ℕ, ◌+◌, ◌≡◌, refl, arith, Bool, true, false, Option, none, some, List, [], ◌∷◌, ◌==◌,
  if◌then◌else◌,
}
use rspm.Common.Vectors.{swap_remove}
use rspm.Ws.StateCell.{new_with_identity}
use rspm.Ws.Retirement.Ledger.{FailedRetirement, drain_loop, drain_pass}
use rspm.Ws.Retirement.Permits.{permits_held, retained_tasks}
use rspm.Ws.Retirement.Histories.{
  System, Reach, here, next, reserves, transfers, receives, finishes, started, permits_conserved,
  drained_leaves_none,
}
use rspm.Ws.Retirement.{
  Shared, active, running, max_process_retirements, new_process, process_retirement_custodian,
  reserve_process_retirement_slot, checked_counter_increment, checked_counter_decrement,
  count_transfer, transfer_to_known_custodian, transfer_to_process_custodian, receive_command,
  finish_retained, process_drained,
}

abbrev shared : Shared
shared = record { cell = new_with_identity 1; retirement = active }

abbrev connected : System
connected = record {
  process = (reserve_process_retirement_slot (new_process true)).0;
  outstanding = 1;
}

abbrev transferred : System
transferred = record {
  process = (transfer_to_process_custodian 3 true (connected.process, shared)).0;
  outstanding = 0;
}

abbrev waiting : System
waiting = record transferred { process = (receive_command transferred.process).0 }

abbrev ended : System
ended = record waiting { process = (finish_retained false (waiting.process, shared)).0 }

connects : Reach (started true) connected
unfolding new_process reserve_process_retirement_slot process_retirement_custodian
connects = next here (reserves (started true))

drops : Reach (started true) transferred
unfolding new_process reserve_process_retirement_slot process_retirement_custodian
    transfer_to_process_custodian transfer_to_known_custodian count_transfer
    checked_counter_increment
drops = next connects (transfers connected 3 true shared (omega arith))

permits_conserved_example : permits_held transferred.process + 0 ≡ max_process_retirements
permits_conserved_example = permits_conserved true drops

waits : Reach (started true) waiting
unfolding new_process reserve_process_retirement_slot process_retirement_custodian
    transfer_to_process_custodian transfer_to_known_custodian count_transfer
    checked_counter_increment
waits = next drops (receives transferred refl)

ends : Reach (started true) ended
unfolding new_process reserve_process_retirement_slot process_retirement_custodian
    transfer_to_process_custodian transfer_to_known_custodian count_transfer
    checked_counter_increment receive_command
ends = next waits (finishes waiting false shared refl)

test_ended : (ended.process.custodian ≡ running) × (process_drained true ended.process ≡ true)
unfolding new_process reserve_process_retirement_slot process_retirement_custodian
    transfer_to_process_custodian transfer_to_known_custodian count_transfer
    checked_counter_increment receive_command finish_retained checked_counter_decrement
    process_drained
test_ended = (refl, refl)

drained_leaves_none_example :
    (retained_tasks ended.process.commands ≡ 0) × (ended.process.current ≡ none)
drained_leaves_none_example = drained_leaves_none true true ends (test_ended.0) (test_ended.1)

-- A panic was found in the fallback ledger.
abbrev poisoned : System
poisoned = record {
  process = record (new_process true) { failed_poisoned = true };
  outstanding = 0;
}

-- Of three tasks the first has ended, the second runs and the third has ended by a panic.
abbrev completions : ℕ → Option Bool
completions session = if session == 1 then some false else if session == 3 then some true else none

abbrev failed : List FailedRetirement
failed =
    record { session = 1; slot = true }
    ∷ record { session = 2; slot = true }
    ∷ record { session = 3; slot = false }
    ∷ []

test_pass : drain_pass completions failed false ≡ record {
  remaining = record { session = 2; slot = true } ∷ [];
  completed = record { session = 3; slot = false } ∷ record { session = 1; slot = true } ∷ [];
  drain_failed = true;
}
unfolding drain_pass drain_loop swap_remove
test_pass = refl
