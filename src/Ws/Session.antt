-- ===== src/Ws/Session.antt =====
-- auth/ws/session.rs: the session that owns the socket task, the event receiver and the permit. A
-- call of `shutdown` or `drain` that waits for the task holds it as a guard. The other methods of the
-- session are those of its state cell. The session's number names it to the process.
pub mod Custody
pub mod Answers
pub mod Examples
use rspm.Common.{
  ℕ, suc, Bool, true, false, not, ◌&&◌, ◌||◌, Option, none, some, if◌then◌else◌, ◌==◌, leb,
  option_eq,
}
use rspm.Ws.State.{CredentialIdentity}
use rspm.Ws.StateCell.{Cell, new_with_identity, publish_poisoned}
use rspm.Ws.StateCell.Marks.{mark_disconnected, mark_evidence_gap}
use rspm.Ws.Retirement.{
  RetirementState, active, requested, terminal_graceful, terminal_cancelled, is_terminal, Shared,
  Process, reserve_process_retirement_slot, Reservation, reserved, transfer_to_process_custodian,
}
use rspm.Ws.Connection.{Config}

-- `SessionRetirementGuard`: it owns the task. `custody_poisoned` is the answer of the locks that the
-- call met.
pub record Guard : Type 0 where
  pub slot : Bool
  pub custody_poisoned : Bool

-- The three mutexes with their poison flags. `task` is there until a call takes it.
pub record Session : Type 0 where
  pub shared : Shared
  pub custody_poisoned : Bool
  pub events : Bool
  pub events_mutex : Bool
  pub shutdown_tx : Bool
  pub task : Bool
  pub task_mutex : Bool
  pub retirement_slot : Bool
  pub slot_mutex : Bool
  pub guard : Option Guard

-- `AuthenticatedUserWsConfig::is_valid` of auth/ws/client.rs.
unfoldable pub config_is_valid : Config → Bool
config_is_valid c =
    not (c.connect_timeout == 0)
    && not (c.heartbeat_interval == 0)
    && leb c.heartbeat_interval c.heartbeat_timeout
    && not (c.initial_reconnect_delay == 0)
    && leb c.initial_reconnect_delay c.max_reconnect_delay
    && not (option_eq c.max_reconnect_attempts (some 0))

pub data ConnectOutcome : Type 0 where
  connected_session : Session → ConnectOutcome
  invalid_configuration subscription_encoding runtime_unavailable custodian_unavailable
        capacity_exhausted :
      ConnectOutcome

unfoldable pub new_session : CredentialIdentity → Session
new_session identity = record {
  shared = record { cell = new_with_identity identity; retirement = active };
  custody_poisoned = false;
  events = true;
  events_mutex = false;
  shutdown_tx = false;
  task = true;
  task_mutex = false;
  retirement_slot = true;
  slot_mutex = false;
  guard = none;
}

abbrev opened : Reservation → CredentialIdentity → ConnectOutcome
opened reserved identity = connected_session (new_session identity)
opened Reservation.custodian_unavailable identity = custodian_unavailable
opened Reservation.capacity_exhausted identity = capacity_exhausted

-- `connect_inner`: whether the subscription can be encoded and a runtime is there are inputs.
unfoldable pub connect_inner :
    Config → Bool → Bool → CredentialIdentity → Process → Process × ConnectOutcome
unfolding config_is_valid new_session
connect_inner config encodes has_runtime identity p =
    let (q, reservation) = reserve_process_retirement_slot p in
    if not (config_is_valid config)
    then (p, invalid_configuration)
    else if not encodes
    then (p, subscription_encoding)
    else if not has_runtime
    then (p, runtime_unavailable)
    else (q, opened reservation identity)

abbrev pub with_cell : (Cell → Cell) → Session → Session
with_cell f s = record s { shared = record s.shared { cell = f s.shared.cell } }

unfoldable pub fail_closed : Session → Session
fail_closed s = record (with_cell publish_poisoned s) {
  custody_poisoned = true;
  shutdown_tx = true;
}

-- The session after `recover_mutex` of a mutex with this poison flag; the flag is also the answer.
unfoldable pub recover_mutex : Bool → Session → Session
unfolding fail_closed
recover_mutex poisoned s = if poisoned then fail_closed s else s

pub data TakenEvents : Type 0 where
  receiver authority_poisoned event_receiver_taken : TakenEvents

unfoldable pub take_events : Session → Session × TakenEvents
unfolding recover_mutex
take_events s =
    if s.custody_poisoned
    then (s, authority_poisoned)
    else if s.events_mutex
    then (recover_mutex true s, authority_poisoned)
    else if s.events
    then (record s { events = false }, receiver)
    else (s, event_receiver_taken)

unfoldable pub request_shutdown : Session → Session
request_shutdown s = record (with_cell mark_disconnected s) { shutdown_tx = true }

-- The guard that the call holds now, and whether it met a poisoned mutex.
unfoldable pub take_retirement_guard : Session → Session × Bool
unfolding recover_mutex
take_retirement_guard s =
    let opened = recover_mutex s.task_mutex s in
    let taken = recover_mutex s.slot_mutex (record opened { task = false }) in
    let poisoned = s.task_mutex || s.slot_mutex in
    if s.task
    then (
      record taken {
        retirement_slot = false;
        guard = some (record { slot = taken.retirement_slot; custody_poisoned = poisoned });
      },
      poisoned,
    )
    else (opened, s.task_mutex)

-- `shutdown` and `drain` up to their wait.
unfoldable pub begin_retirement : Session → Session × Bool
unfolding request_shutdown take_retirement_guard
begin_retirement s = take_retirement_guard (request_shutdown s)

-- How the wait of a call with the guard ends: the task ends, or its handle reports an error, or the
-- time is over, or the call is dropped.
pub data Await : Type 0 where
  finished join_error timed_out cancelled : Await

-- `guard.complete()`: the permit goes back.
abbrev pub release : Bool → Process → Process
release slot p = if slot then record p { slots = suc p.slots } else p

unfoldable pub mark_cancelled : Session → Session
mark_cancelled s = record s {
  shared = record { cell = mark_evidence_gap s.shared.cell; retirement = terminal_cancelled };
}

-- The end of `shutdown` with its answer, for a guard that the call holds; a call that is dropped
-- has none, and a guard that is dropped hands the task to the process.
unfoldable pub end_shutdown : ℕ → Await → Guard → Session × Process → (Session × Process) × Bool
unfolding mark_cancelled
end_shutdown session await guard (s, p) =
    let done = record s { guard = none } in
    let (q, kept) = transfer_to_process_custodian session guard.slot (p, s.shared) in
    let dropped : Session × Process = (record done { shared = kept }, q) in
    elim await [
      | finished ↦ (
        (done, release guard.slot p),
        is_terminal s.shared.retirement && not guard.custody_poisoned,
      )
      | join_error ↦ ((mark_cancelled done, release guard.slot p), false)
      | timed_out ↦ (dropped, false)
      | cancelled ↦ (dropped, false)
    ]

-- The end of `shutdown` without a guard: what `wait_for_retirement_terminal` reports.
abbrev pub end_wait : Bool → Bool → Session → Bool
end_wait in_time custody_poisoned s =
    in_time && is_terminal s.shared.retirement && not custody_poisoned

-- The end of `drain` with a guard; it has no time limit.
unfoldable pub end_drain : ℕ → Await → Guard → Session × Process → Session × Process
unfolding end_shutdown
end_drain session await guard sp = (end_shutdown session await guard sp).0

-- `Drop` of the session: no call holds a guard then.
unfoldable pub drop_session : ℕ → Session × Process → Session × Process
unfolding request_shutdown recover_mutex
drop_session session (s, p) =
    let opened = recover_mutex s.task_mutex (request_shutdown s) in
    let taken = recover_mutex s.slot_mutex (record opened { task = false }) in
    let (q, kept) = transfer_to_process_custodian session taken.retirement_slot (p, taken.shared) in
    if s.task then (record taken { retirement_slot = false; shared = kept }, q) else (opened, p)

-- `retirement_custodian`: the connection has ended by itself; or a shutdown was seen, and then the
-- connection ended within the grace time or was dropped.
unfoldable pub connection_ended : Session → Session
connection_ended s = record s { shared = record s.shared { retirement = terminal_graceful } }

unfoldable pub shutdown_seen : Session → Session
shutdown_seen s = record s {
  shared = record { cell = mark_disconnected s.shared.cell; retirement = requested };
}

unfoldable pub disposed : Bool → Session → Session
disposed graceful s = record s {
  shared =
      if graceful
      then record { cell = mark_disconnected s.shared.cell; retirement = terminal_graceful }
      else record {
        cell = mark_disconnected (mark_evidence_gap s.shared.cell);
        retirement = terminal_cancelled;
      };
}
