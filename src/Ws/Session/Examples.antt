-- ===== src/Ws/Session/Examples.antt =====
-- A session that connects, whose events are taken, and that is shut down.
use rspm.Common.{◌+◌, ◌≡◌, refl, true, false, none, some}
use rspm.Ws.Connection.{Config}
use rspm.Ws.Retirement.{
  Process, new_process, is_terminal, process_retirement_custodian, reserve_process_retirement_slot,
}
use rspm.Ws.Retirement.Permits.{permits_held}
use rspm.Ws.Session.{
  Guard, Session, new_session, config_is_valid, connect_inner, connected_session,
  invalid_configuration, recover_mutex, receiver, take_events, request_shutdown,
  take_retirement_guard, begin_retirement, finished, timed_out, end_shutdown, drop_session,
  disposed,
}
use rspm.Ws.Session.Custody.{
  SessionReach, start, then_step, shares, drops, session_permits, session_permit_conserved,
}
use rspm.Ws.Session.Answers.{shutdown_true}

abbrev config : Config
config = record {
  connect_timeout = 10;
  heartbeat_interval = 10;
  heartbeat_timeout = 30;
  initial_reconnect_delay = 1;
  max_reconnect_delay = 60;
  max_reconnect_attempts = none;
}

abbrev process : Process
process = (reserve_process_retirement_slot (new_process true)).0

test_connect :
    connect_inner config true true 1 (new_process true)
    ≡ (process, connected_session (new_session 1))
unfolding connect_inner config_is_valid reserve_process_retirement_slot process_retirement_custodian
    new_process
test_connect = refl

test_zero_interval :
    connect_inner (record config { heartbeat_interval = 0 }) true true 1 (new_process true)
    ≡ (new_process true, invalid_configuration)
unfolding connect_inner config_is_valid
test_zero_interval = refl

session_permit_conserved_example :
    session_permits (drop_session 3 (new_session 1, process)).0
      + permits_held (drop_session 3 (new_session 1, process)).1
    ≡ 1 + permits_held process
unfolding new_session
session_permit_conserved_example =
    session_permit_conserved 3 1 (then_step start (drops (new_session 1) process refl))

test_receiver : (take_events (new_session 1)).1 ≡ receiver
unfolding take_events new_session
test_receiver = refl

-- The task has ended within the grace time.
abbrev retiring : Session
retiring = (begin_retirement (new_session 1)).0

abbrev ended : Session
ended = disposed true retiring

abbrev guard : Guard
guard = record { slot = true; custody_poisoned = false }

ends_gracefully : SessionReach 3 retiring process ended process
unfolding disposed
ends_gracefully = then_step start (shares retiring process ended.shared)

ended_guard : ended.guard ≡ some guard
unfolding disposed begin_retirement take_retirement_guard request_shutdown recover_mutex new_session
ended_guard = refl

ended_answer : (end_shutdown 3 finished guard (ended, process)).1 ≡ true
unfolding end_shutdown disposed is_terminal
ended_answer = refl

new_session_task : (new_session 1).task ≡ true
unfolding new_session
new_session_task = refl

shutdown_true_example :
    (finished ≡ finished)
    × (is_terminal ended.shared.retirement ≡ true)
    × ((new_session 1).task_mutex ≡ false)
    × ((new_session 1).slot_mutex ≡ false)
shutdown_true_example =
    shutdown_true 3 (new_session 1) process finished guard new_session_task ends_gracefully
      ended_guard ended_answer

test_timed_out : (end_shutdown 3 timed_out guard (ended, process)).1 ≡ false
unfolding end_shutdown
test_timed_out = refl
