-- ===== src/Ws/Connection/Examples.antt =====
-- Runs of the loop on concrete connections.
use rspm.Common.{
  ℕ, true, false, Option, none, some, List, [], ◌∷◌, ◌≡◌, ◌⊎◌, refl, arith, ltb, is_some, ◌==◌,
  if◌then◌else◌,
}
use rspm.Common.OrderedMap.{lookup}
use rspm.Ws.Frame.{FrameReceipt, RawFrame, EventBatch, raw_evidence}
use rspm.Ws.StateCell.{Cell}
use rspm.Ws.StateCell.Examples.{live as live_cell, live-IsValid, shut}
use rspm.Ws.Connection.{
  Config, Connection, Phase, connects, live, begin, wait_over, connect_failed,
  next_reconnect_attempt, reconnect_exhausted, doubled_delay,
}
use rspm.Ws.Connection.Receive.{text, receive}
use rspm.Ws.Connection.Steps.Receipts.{receive_never_panics}
use rspm.Ws.Connection.Steps.Retries.{Failures, unfailed, fails}
use rspm.Ws.Connection.Steps.Queue.{queued_is_retained}

abbrev deserialize : List ℕ → Option (List ℕ)
deserialize (opening ∷ bytes) = if opening == 91 then some bytes else none
deserialize _ = none

abbrev try_from : ℕ → Option ℕ
try_from w = if ltb w 10 then some w else none

abbrev config : Config
config = record {
  connect_timeout = 15;
  heartbeat_interval = 10;
  initial_reconnect_delay = 100;
  max_reconnect_delay = 300;
  max_reconnect_attempts = some 3;
  heartbeat_timeout = 50;
}

abbrev at_phase : Cell → Phase → Connection ℕ
at_phase c phase = record {
  cell = c;
  phase = phase;
  reconnect_attempt = 0;
  reconnect_delay = 100;
  shutdown = false;
  queue = [];
}

abbrev line : Connection ℕ
line = at_phase live_cell (live 1 none)

abbrev receipt : FrameReceipt
receipt = record { process_generation = 1; wall_time_ns = 2; monotonic_ns = 3 }

abbrev or_line : Option (Connection ℕ) → Connection ℕ
or_line none = line
or_line (some m) = m

-- The connection after a message of one event.
abbrev received : Connection ℕ
received =
    or_line (
      receive deserialize try_from config 1 none (some receipt) true true (text (91 ∷ 4 ∷ [])) line)

some-or_line : (o : Option (Connection ℕ)) → is_some o ≡ true → o ≡ some (or_line o)
some-or_line none h = absurd (ground arith)
some-or_line (some m) h = refl

is_some_of : (o : Option (Connection ℕ)) → ((m : Connection ℕ) × (o ≡ some m)) → is_some o ≡ true
is_some_of o (m, e) = rw e refl

test_received :
    receive deserialize try_from config 1 none (some receipt) true true (text (91 ∷ 4 ∷ [])) line
    ≡ some received
test_received = some-or_line _ (
    is_some_of _ (
      receive_never_panics deserialize try_from config 1 none (some receipt) true true
        (text (91 ∷ 4 ∷ [])) line))

queued_is_retained_example :
    (received.queue ≡ [])
    ⊎ ((batch : EventBatch ℕ) × (evidence : RawFrame) × (received.queue ≡ batch ∷ [])
        × (raw_evidence batch ≡ some evidence)
        × (lookup evidence.frame_sequence received.cell.raw_frames ≡ some evidence)
        × (batch.socket_generation ≡ 1))
queued_is_retained_example =
    queued_is_retained deserialize try_from config 1 none (some receipt) true true
      (text (91 ∷ 4 ∷ [])) line received live-IsValid test_received

abbrev shut_line : Connection ℕ
shut_line = at_phase shut connects

abbrev attempt : Connection ℕ
attempt = at_phase live_cell connects

abbrev again : Connection ℕ
again = begin (wait_over config false (connect_failed config attempt))

one-Failures : Failures config 1 attempt again
unfolding begin wait_over connect_failed next_reconnect_attempt reconnect_exhausted doubled_delay
one-Failures = fails (unfailed attempt) refl refl refl

two-Failures :
    Failures config 2 attempt (begin (wait_over config false (connect_failed config again)))
unfolding begin wait_over connect_failed next_reconnect_attempt reconnect_exhausted doubled_delay
two-Failures = fails one-Failures refl refl refl
