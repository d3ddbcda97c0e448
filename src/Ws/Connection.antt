-- ===== src/Ws/Connection.antt =====
-- auth/ws/connection.rs: the reconnecting transport loop. Each await of the loop ends in one event,
-- which a function below handles; the phase says which await the loop stands at.
pub mod Receive
pub mod Steps
pub mod Examples
use rspm.Common.{
  ℕ, Bool, true, false, not, ◌||◌, Option, none, some, List, min, ◌*◌, ◌+◌, ◌-◌, leb, ltb,
  if◌then◌else◌, checked_add, u64_max, u32_max, is_some,
}
use rspm.Ws.Frame.{EventBatch}
use rspm.Ws.StateCell.{Cell}
use rspm.Ws.StateCell.Marks.{
  ConnectResult, ok, err, mark_connecting, try_mark_connected, mark_subscription_written,
  mark_disconnected, mark_consumer_closed, mark_evidence_gap,
}

-- Durations are counted in nanoseconds; the longest is that of `Duration::MAX`.
abbrev pub duration_max : ℕ
duration_max = u64_max * 1000000000 + 999999999

pub record Config : Type 0 where
  pub connect_timeout : ℕ
  pub heartbeat_interval : ℕ
  pub initial_reconnect_delay : ℕ
  pub max_reconnect_delay : ℕ
  pub max_reconnect_attempts : Option ℕ
  pub heartbeat_timeout : ℕ

-- What the loop waits for. A live phase has the time of an outstanding PING.
pub data Phase : Type 0 where
  top connects waits stopped : Phase
  subscribes proves : ℕ → Phase
  live : ℕ → Option ℕ → Phase

-- The queue of batches, the oldest last; `shutdown` is the value of the watch channel.
pub record Connection (Event : Type 0) : Type 0 where
  pub cell : Cell
  pub phase : Phase
  pub reconnect_attempt : ℕ
  pub reconnect_delay : ℕ
  pub shutdown : Bool
  pub queue : List (EventBatch Event)

unfoldable pub reconnect_exhausted : Option ℕ → ℕ → Bool
reconnect_exhausted none attempts = false
reconnect_exhausted (some maximum) attempts = leb maximum attempts

unfoldable pub next_reconnect_attempt : ℕ → Option ℕ
next_reconnect_attempt current = if ltb current u32_max then some (current + 1) else none

unfoldable pub doubled_delay : ℕ → ℕ → Option ℕ
doubled_delay current maximum =
    if leb (current * 2) duration_max then some (min (current * 2) maximum) else none

module _ {Event : Type 0} where
  -- The end of the outer loop.
  unfoldable pub stop : Connection Event → Connection Event
  stop l = record l { cell = mark_disconnected l.cell; phase = stopped }

  -- The head of the outer loop.
  unfoldable pub begin : Connection Event → Connection Event
  unfolding stop
  begin l =
      if l.shutdown then stop l else record l { cell = mark_connecting l.cell; phase = connects }

  -- The end of the outer loop's body, up to the wait.
  unfoldable pub retry : Config → Connection Event → Connection Event
  unfolding stop
  retry config l = elim (next_reconnect_attempt l.reconnect_attempt) [
    | none ↦ stop (record l { cell = mark_evidence_gap l.cell })
    | some next_attempt ↦
        let counted = record l { reconnect_attempt = next_attempt } in
        if reconnect_exhausted config.max_reconnect_attempts next_attempt
        then stop counted
        else record counted { phase = waits }
  ]

  -- The end of the wait; the flag is the answer of `wait_or_shutdown`.
  unfoldable pub wait_over : Config → Bool → Connection Event → Connection Event
  unfolding stop
  wait_over config told_to_stop l =
      if told_to_stop
      then stop l
      else elim (doubled_delay l.reconnect_delay config.max_reconnect_delay) [
        | none ↦ stop (record l { cell = mark_evidence_gap l.cell })
        | some next_delay ↦ record l { reconnect_delay = next_delay; phase = top }
      ]

  -- A failure or a timeout of the connection attempt.
  unfoldable pub connect_failed : Config → Connection Event → Connection Event
  unfolding stop retry
  connect_failed config l =
      if l.shutdown then stop l else retry config (record l { cell = mark_disconnected l.cell })

  -- A change of the watch channel during an await; the flag says that its sender is gone.
  unfoldable pub connect_interrupted : Bool → Connection Event → Connection Event
  unfolding stop
  connect_interrupted sender_gone l =
      stop (record l { cell = if sender_gone then mark_disconnected l.cell else l.cell })

  unfoldable pub connect_succeeded : Connection Event → Connection Event
  unfolding stop
  connect_succeeded l =
      let (c, generation) = try_mark_connected l.cell in
      elim generation [
        | ok g ↦ record l { cell = c; phase = subscribes g }
        | err exhaustion ↦ stop (record l { cell = c })
      ]

  -- The end of the body after a session.
  unfoldable pub after_session : Config → Connection Event → Connection Event
  unfolding stop retry
  after_session config l = if l.shutdown then stop l else retry config l

  -- The send of the subscription: interrupted, failed or timed out, or done.
  unfoldable pub subscribe_interrupted : Bool → Connection Event → Connection Event
  unfolding connect_interrupted stop
  subscribe_interrupted sender_gone l =
      let c = if sender_gone then mark_disconnected l.cell else l.cell in
      stop (record l { cell = mark_disconnected c })

  unfoldable pub subscribe_failed : Config → Connection Event → Connection Event
  unfolding after_session
  subscribe_failed config l = after_session config (record l { cell = mark_disconnected l.cell })

  unfoldable pub subscribe_sent : ℕ → Connection Event → Connection Event
  subscribe_sent generation l = record l {
    cell = mark_subscription_written generation l.cell;
    phase = proves generation;
  }

  -- The send of the first PING: interrupted, failed or timed out, or done at `now`.
  unfoldable pub ping_interrupted : Config → Bool → Connection Event → Connection Event
  unfolding after_session
  ping_interrupted config sender_gone l =
      let c = if sender_gone then mark_disconnected l.cell else l.cell in
      after_session config (record l { cell = mark_disconnected c })

  unfoldable pub ping_failed : Config → Connection Event → Connection Event
  unfolding after_session
  ping_failed config l = after_session config (record l { cell = mark_disconnected l.cell })

  unfoldable pub ping_sent : Config → ℕ → ℕ → Connection Event → Connection Event
  ping_sent config generation now l = record l {
    reconnect_attempt = 0;
    reconnect_delay = config.initial_reconnect_delay;
    phase = live generation (some now);
  }

  -- The end of the inner loop.
  unfoldable pub leave : Config → Connection Event → Connection Event
  unfolding after_session
  leave config l = after_session config (record l { cell = mark_disconnected l.cell })

  -- Shutdown of a live socket; the flag is the answer of `close_socket_within`.
  unfoldable pub live_shutdown : Config → Bool → Connection Event → Connection Event
  unfolding leave
  live_shutdown config closed_in_time l =
      leave config (record l { cell = if closed_in_time then l.cell else mark_disconnected l.cell })

  unfoldable pub consumer_gone : Config → Connection Event → Connection Event
  unfolding leave
  consumer_gone config l = leave config (record l { cell = mark_consumer_closed l.cell })

  -- A tick of the heartbeat: the socket that did not answer in time is left; a PING is sent if none
  -- is outstanding, and `sent` says whether it went out.
  unfoldable pub heartbeat_tick :
      Config → ℕ → Option ℕ → ℕ → Bool → Connection Event → Connection Event
  unfolding leave
  heartbeat_tick config generation none now sent l =
      if sent then record l { phase = live generation (some now) } else leave config l
  heartbeat_tick config generation (some sent_at) now sent l =
      if leb config.heartbeat_timeout (now - sent_at) then leave config l else l
