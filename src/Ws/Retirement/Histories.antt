-- ===== src/Ws/Retirement/Histories.antt =====
-- Histories of the process: the calls of sessions, the steps of the custodian thread, the passes over
-- the fallback ledger and the panics of a thread that holds its mutex, in any order.
use rspm.Common.{
  ℕ, ◌+◌, ◌-◌, ◌≤◌, ◌≡◌, refl, ◌∙◌, arith, Bool, true, false, Option, none, inr, is_some,
}
use rspm.Ws.Retirement.Ledger.{bit}
use rspm.Ws.Retirement.Counters.{
  Counted, reserve-Counted, transfer-Counted, receive-Counted, finish-Counted, drain_failed-Counted,
}
use rspm.Ws.Retirement.Permits.{
  retained_tasks, permits_held, reserve-permits, transfer-permits, receive-permits, finish-permits,
  drain_failed-permits,
}
use rspm.Ws.Retirement.{
  Process, Shared, Reservation, reserved, max_process_retirements, new_process, running,
  reserve_process_retirement_slot, transfer_to_process_custodian, receive_command, finish_retained,
  drain_failed_pass, process_drained,
}

-- `outstanding` counts the permits of sessions and of the calls that retire one.
pub record System : Type 0 where
  pub process : Process
  pub outstanding : ℕ

abbrev pub granted : Reservation → ℕ
granted reserved = 1
granted _ = 0

pub data Step : System → System → Type 0 where
  -- A session connects.
  reserves :
      (s : System)
      → Step s (record {
        process = (reserve_process_retirement_slot s.process).0;
        outstanding = s.outstanding + granted (reserve_process_retirement_slot s.process).1;
      })
  -- A call that has retired a session drops the permit, if it has one.
  completes :
      (s : System) (slot : Bool)
      → bit slot ≤ s.outstanding
      → Step s (record {
        process = record s.process { slots = s.process.slots + bit slot };
        outstanding = s.outstanding - bit slot;
      })
  -- A session or a call is dropped with its task.
  transfers :
      (s : System) (session : ℕ) (slot : Bool) (shared : Shared)
      → bit slot ≤ s.outstanding
      → Step s (record {
        process = (transfer_to_process_custodian session slot (s.process, shared)).0;
        outstanding = s.outstanding - bit slot;
      })
  receives :
      (s : System)
      → s.process.current ≡ none
      → Step s (record s { process = (receive_command s.process).0 })
  finishes :
      (s : System) (is_err : Bool) (shared : Shared)
      → is_some s.process.current ≡ true
      → Step s (record s { process = (finish_retained is_err (s.process, shared)).0 })
  drains :
      (s : System) (completions : ℕ → Option Bool)
      → Step s (record s { process = drain_failed_pass completions s.process })
  -- A thread panics while it holds the mutex of the ledger, or the custodian thread is gone.
  panics : (s : System) → Step s (record s { process = record s.process { failed_mutex = true } })
  disconnects :
      (s : System) → Step s (record s { process = record s.process { receiver_alive = false } })

pub data Reach (s : System) : System → Type 0 where
  here : Reach s s
  next : {t u : System} → Reach s t → Step t u → Reach s u

abbrev pub total_permits : System → ℕ
total_permits s = permits_held s.process + s.outstanding

reserve-granted :
    (p : Process)
    → permits_held (reserve_process_retirement_slot p).0
        + granted (reserve_process_retirement_slot p).1
      ≡ permits_held p
reserve-granted p = ground (arith, reserve-permits p)

Step-permits : {s t : System} → Step s t → total_permits t ≡ total_permits s
Step-permits (reserves s) = omega (arith, reserve-granted s.process)
Step-permits (completes s slot h) = omega arith
Step-permits (transfers s session slot shared h) =
    omega (arith, transfer-permits session slot s.process shared)
Step-permits (receives s idle) = omega (arith, receive-permits s.process idle)
Step-permits (finishes s is_err shared busy) =
    omega (arith, finish-permits is_err s.process shared busy)
Step-permits (drains s completions) = omega (arith, drain_failed-permits completions s.process)
Step-permits (panics s) = refl
Step-permits (disconnects s) = refl

Step-Counted : {s t : System} → Step s t → Counted s.process → Counted t.process
Step-Counted (reserves s) c = reserve-Counted s.process c
Step-Counted (completes s slot h) c = c
Step-Counted (transfers s session slot shared h) c =
    transfer-Counted session slot s.process shared c
Step-Counted (receives s idle) c = receive-Counted s.process idle c
Step-Counted (finishes s is_err shared busy) c = finish-Counted is_err s.process shared busy c
Step-Counted (drains s completions) c = drain_failed-Counted completions s.process c
Step-Counted (panics s) c = c
Step-Counted (disconnects s) c = c

abbrev pub started : Bool → System
started thread_starts = record { process = new_process thread_starts; outstanding = 0 }

Reach-permits : {s t : System} → Reach s t → total_permits t ≡ total_permits s
Reach-permits here = refl
Reach-permits (next r st) = Step-permits st ∙ Reach-permits r

Reach-Counted : {s t : System} → Reach s t → Counted s.process → Counted t.process
Reach-Counted here c = c
Reach-Counted (next r st) c = Step-Counted st (Reach-Counted r c)

-- After any history of the process the 64 permits are all accounted for: free, with a session or a
-- call that retires one, in a command, with the thread, or in the fallback ledger.
pub permits_conserved :
    (thread_starts : Bool) {s : System}
    → Reach (started thread_starts) s
    → permits_held s.process + s.outstanding ≡ max_process_retirements
unfolding new_process
permits_conserved thread_starts r = Reach-permits r

-- After any history, a drain that the running custodian answers with success leaves no task in a
-- command and none with the thread.
pub drained_leaves_none :
    (thread_starts barrier_answered : Bool) {s : System}
    → Reach (started thread_starts) s
    → s.process.custodian ≡ running
    → process_drained barrier_answered s.process ≡ true
    → (retained_tasks s.process.commands ≡ 0) × (s.process.current ≡ none)
unfolding new_process process_drained
drained_leaves_none thread_starts answered r run h = ground (arith, Reach-Counted r (inr refl))
