-- ===== src/Ws/Retirement.antt =====
-- auth/ws/retirement.rs and retirement/failed.rs: the process that keeps the socket tasks of retired
-- sessions until they end. A permit of the semaphore stands where the code keeps it: with a session,
-- in a command, with the custodian thread or in the fallback ledger. A session is named by a number.
pub mod Ledger
pub mod Counters
pub mod Histories
pub mod Poison
pub mod Permits
pub mod Draining
pub mod Examples
use rspm.Common.{
  ℕ, suc, ◌+◌, ◌-◌, Bool, true, false, not, ◌&&◌, ◌||◌, ◌==◌, Option, none, some, List, [], ◌∷◌,
  ◌++◌, length, ltb, if◌then◌else◌, checked_add,
}
use rspm.Ws.StateCell.{Cell}
use rspm.Ws.Retirement.Ledger.{FailedRetirement, drain_pass, slots_of}
use rspm.Ws.StateCell.Marks.{mark_disconnected, mark_evidence_gap}

pub data RetirementState : Type 0 where
  active requested retained_by_process_custodian terminal_graceful terminal_cancelled :
      RetirementState

unfoldable pub is_terminal : RetirementState → Bool
is_terminal terminal_graceful = true
is_terminal terminal_cancelled = true
is_terminal _ = false

abbrev pub max_process_retirements : ℕ
max_process_retirements = 64

-- What the session shares with whoever keeps its task.
pub record Shared : Type 0 where
  pub cell : Cell
  pub retirement : RetirementState

-- `Retain` owns a permit; `Barrier` only answers.
pub data Command : Type 0 where
  retain : ℕ → Command
  barrier : ℕ → Command

-- `PROCESS_RETIREMENT_CUSTODIAN`: never asked for, refused by the system, or running.
pub data Custodian : Type 0 where
  unset unavailable running : Custodian

-- The statics. `thread_starts` is the answer of the system to the start of the thread, `current` the
-- command that the thread is at, `receiver_alive` whether the thread still receives.
pub record Process : Type 0 where
  pub custodian : Custodian
  pub thread_starts : Bool
  pub retained : ℕ
  pub transfers : ℕ
  pub poisoned : Bool
  pub slots : ℕ
  pub commands : List Command
  pub current : Option ℕ
  pub receiver_alive : Bool
  pub failed : List FailedRetirement
  pub failed_mutex : Bool
  pub failed_poisoned : Bool
  pub drain_failed : Bool

unfoldable pub new_process : Bool → Process
new_process thread_starts = record {
  custodian = unset;
  thread_starts = thread_starts;
  retained = 0;
  transfers = 0;
  poisoned = false;
  slots = max_process_retirements;
  commands = [];
  current = none;
  receiver_alive = true;
  failed = [];
  failed_mutex = false;
  failed_poisoned = false;
  drain_failed = false;
}

-- The counter, the poison flag and the answer.
unfoldable pub checked_counter_increment : ℕ → Bool → ℕ × Bool × Bool
checked_counter_increment counter poisoned =
    if poisoned then (counter, poisoned, false) else elim (checked_add counter 1) [
      | none ↦ (counter, true, false)
      | some next ↦ (next, poisoned, true)
    ]

unfoldable pub checked_counter_decrement : ℕ → Bool → ℕ × Bool × Bool
checked_counter_decrement counter poisoned =
    if counter == 0 then (counter, true, false) else (counter - 1, poisoned, true)

abbrev start : Bool → Custodian → Custodian
start thread_starts unset = if thread_starts then running else unavailable
start thread_starts unavailable = unavailable
start thread_starts running = running

-- `get_or_init`.
unfoldable pub process_retirement_custodian : Process → Process
process_retirement_custodian p = record p { custodian = start p.thread_starts p.custodian }

abbrev pub is_running : Custodian → Bool
is_running running = true
is_running _ = false

abbrev pub failed_retirements_are_poisoned : Process → Bool
failed_retirements_are_poisoned p = p.failed_poisoned || p.drain_failed

pub data Reservation : Type 0 where
  reserved custodian_unavailable capacity_exhausted : Reservation

-- The test of the poison flags and `try_acquire_owned`.
unfoldable pub reserve_process_retirement_slot : Process → Process × Reservation
unfolding process_retirement_custodian
reserve_process_retirement_slot p =
    let q = process_retirement_custodian p in
    if not (is_running q.custodian) || q.poisoned || failed_retirements_are_poisoned q
    then (q, custodian_unavailable)
    else if q.slots == 0
    then (q, capacity_exhausted)
    else (record q { slots = q.slots - 1 }, reserved)

-- `poison_failed_retirements(&FAILED_RETIREMENTS_POISONED)`.
unfoldable pub poison_failed_retirements : Process → Process
poison_failed_retirements p = record p {
  failed_poisoned = true;
  poisoned = p.poisoned || is_running p.custodian;
}

-- The lock of the fallback ledger, which a poisoned mutex does not refuse.
unfoldable pub lock_failed : Process → Process
unfolding poison_failed_retirements
lock_failed p = if p.failed_mutex then poison_failed_retirements p else p

unfoldable pub retain_failed_retirement : ℕ → Bool → Process × Shared → Process × Shared
unfolding lock_failed
retain_failed_retirement session slot (p, shared) =
    let locked = lock_failed p in
    (
      record locked { failed = locked.failed ++ record { session = session; slot = slot } ∷ [] },
      record {
        cell = mark_disconnected (mark_evidence_gap shared.cell);
        retirement = retained_by_process_custodian;
      },
    )

-- The two increments, the second only after the first.
unfoldable pub count_transfer : Process → Process × Bool
unfolding checked_counter_increment
count_transfer p =
    let (transfers, poisoned, counted) = checked_counter_increment p.transfers p.poisoned in
    let q = record p { transfers = transfers; poisoned = poisoned } in
    let (retained, poisoned', counted') = checked_counter_increment q.retained q.poisoned in
    if counted
    then (record q { retained = retained; poisoned = poisoned' }, counted')
    else (q, false)

-- Room in the channel, and a receiver.
abbrev pub can_send : Process → Bool
can_send p = p.receiver_alive && ltb (length p.commands) max_process_retirements

unfoldable pub uncount_retained : Process → Process
unfolding checked_counter_decrement
uncount_retained p =
    let (retained, poisoned, valid) = checked_counter_decrement p.retained p.poisoned in
    record p { retained = retained; poisoned = poisoned }

-- The permit goes with the task.
unfoldable pub transfer_to_known_custodian : ℕ → Process × Shared → Process × Shared
transfer_to_known_custodian session (p, shared) =
    let (q, counted) = count_transfer p in
    let kept = record shared { retirement = retained_by_process_custodian } in
    if not counted
    then retain_failed_retirement session true (q, shared)
    else if can_send q
    then (record q { commands = q.commands ++ retain session ∷ [] }, kept)
    else retain_failed_retirement session true (uncount_retained q, kept)

unfoldable pub transfer_to_process_custodian : ℕ → Bool → Process × Shared → Process × Shared
transfer_to_process_custodian session slot (p, shared) =
    let q = process_retirement_custodian p in
    if not (is_running q.custodian)
    then retain_failed_retirement session slot (q, shared)
    else if slot
    then transfer_to_known_custodian session (q, shared)
    else retain_failed_retirement session false (q, shared)

-- The custodian thread takes a command: a task to wait for, or a barrier to answer.
unfoldable pub receive_command : Process → Process × Option ℕ
receive_command p = elim p.commands [
  | [] ↦ (p, none)
  | command ∷ commands ↦ elim command [
    | retain session ↦ (record p { commands = commands; current = some session }, none)
    | barrier token ↦ (record p { commands = commands }, some token)
  ]
]

-- The task that the thread waits for has ended, with an error or not; its permit is dropped.
unfoldable pub finish_retained : Bool → Process × Shared → Process × Shared
unfolding checked_counter_decrement
finish_retained is_err (p, shared) =
    let closed =
      if is_err || not (is_terminal shared.retirement)
      then record {
        cell = mark_disconnected (mark_evidence_gap shared.cell);
        retirement = terminal_cancelled;
      }
      else shared in
    let (retained, poisoned, valid) = checked_counter_decrement p.retained p.poisoned in
    (
      record p { retained = retained; poisoned = poisoned; current = none; slots = p.slots + 1 },
      if valid then closed else record closed { cell = mark_evidence_gap closed.cell },
    )

-- `drain_authenticated_user_ws_retirements`, the half of the process custodian: the answer after the
-- barrier, where one was sent and answered.
unfoldable pub process_drained : Bool → Process → Bool
process_drained barrier_answered p = elim p.custodian [
  | unset ↦ true
  | unavailable ↦ false
  | running ↦ barrier_answered && p.retained == 0 && not p.poisoned
]

-- One pass of `drain_retirements`: the entries left, and the permits of those taken out.
unfoldable pub drain_failed_pass : (ℕ → Option Bool) → Process → Process
unfolding lock_failed
drain_failed_pass completions p =
    let locked = lock_failed p in
    let drained = drain_pass completions locked.failed locked.drain_failed in
    record locked {
      failed = drained.remaining;
      drain_failed = drained.drain_failed;
      slots = locked.slots + slots_of drained.completed;
    }

-- The answer where a pass has left nothing.
unfoldable pub failed_drained : Process → Bool
failed_drained p = not p.failed_poisoned && not p.drain_failed
