-- ===== src/Ws/Connection/Steps/Receipts.antt =====
-- auth/ws/connection.rs: the runs of the loop as histories of its cell.
use rspm.Common.{
  ℕ, Bool, false, Option, some, List, ◌≡◌, inl, inr, refl, if_elim, subst, Option-cases, is_some,
  if◌then◌else◌, sym, ◌∙◌,
}
use mathlib.Core.Option.{some-injective}
use rspm.Ws.Frame.{FrameReceipt, capture_text_frame, capture_binary_frame, capture_raw_frame}
use rspm.Ws.State.{is_ready}
use rspm.Ws.StateCell.{Cell}
use rspm.Ws.StateCell.Marks.{mark_disconnected, mark_consumer_closed, mark_evidence_gap}
use rspm.Ws.StateCell.RawFrames.{reserve_raw_frame_capacity, release_permit}
use rspm.Ws.StateCell.Invariant.{IsValid}
use rspm.Ws.StateCell.Progress.{Progress}
use rspm.Ws.StateCell.Run.{
  perform, or_same, Reach, Reach.here, Reach.next, subscription_written, server_liveness_proven,
  consumer_closed, reserves_capacity, releases_capacity,
}
use rspm.Ws.StateCell.Run.Safety.{Reach-KeepsProgress, IsClosed, closed_for_good}
use rspm.Ws.Connection.{
  Config, Connection, connect_interrupted, subscribe_interrupted, subscribe_failed, subscribe_sent,
  ping_interrupted, ping_failed, ping_sent, live_shutdown, consumer_gone,
}
use rspm.Ws.Connection.Receive.{
  Message, text, binary, frame, ping, pong, close, failed, ended, is_pong, skip, receive_held,
  receive,
}
use rspm.Ws.Connection.Steps.{
  Step, Runs, still, then_step, begins, waited, connect_fails, connect_stops, connects_to,
  subscribe_stops, subscribe_fails, subscribe_writes, ping_stops, ping_fails, ping_writes,
  shuts_down, consumer_leaves, ticks, receives, shares, tells,
}
use rspm.Ws.Connection.Steps.Histories.{
  Led, disconnect, lose_evidence, maybe_disconnect, maybe_late, begin-Led, wait_over-Led,
  after_session-Led, leave-Led, connect_failed-Led, connect_succeeded-Led, heartbeat_tick-Led,
  accept-Led,
}

module _ {Wire Event : Type 0} (deserialize : List ℕ → Option (List Wire))
    (try_from : Wire → Option Event) (config : Config) where
  -- The receipt yields a connection to which a history from `c` leads.
  abbrev Yields : Cell → Option (Connection Event) → Type 0
  Yields c o = (m : Connection Event) × (o ≡ some m) × Reach c m.cell

  receive_held-Yields :
      (c : Cell) (g : ℕ) (outstanding : Option ℕ) (receipt : FrameReceipt)
      (pong_sent in_time : Bool) (message : Message) (l : Connection Event)
      → Reach c l.cell
      → Yields c (
          receive_held deserialize try_from config g outstanding receipt pong_sent in_time message
            l)
  unfolding receive_held skip perform
  receive_held-Yields c g outstanding receipt pong_sent in_time (text bytes) l r =
      let back : Reach c (release_permit l.cell) = next r releases_capacity in
      if_elim (Yields c) (is_pong bytes)
        (λ _. (
          _,
          refl,
          if_elim (Led c) (is_some outstanding) (λ _. next back (server_liveness_proven g))
              (λ _. back),
        ))
        (λ _.
          accept-Led c config g receipt in_time (capture_text_frame deserialize try_from bytes) l r)
  receive_held-Yields c g outstanding receipt pong_sent in_time (binary bytes) l r =
      accept-Led c config g receipt in_time (capture_binary_frame bytes) l r
  receive_held-Yields c g outstanding receipt pong_sent in_time (frame payload) l r =
      accept-Led c config g receipt in_time (capture_raw_frame payload) l r
  receive_held-Yields c g outstanding receipt pong_sent in_time (ping payload) l r =
      let back : Reach c (release_permit l.cell) = next r releases_capacity in
      (_, refl, if_elim (Led c) pong_sent (λ _. back) (λ _. leave-Led c config (skip l) back))
  receive_held-Yields c g outstanding receipt pong_sent in_time pong l r =
      (_, refl, next r releases_capacity)
  receive_held-Yields c g outstanding receipt pong_sent in_time close l r =
      (_, refl, leave-Led c config (skip l) (next r releases_capacity))
  receive_held-Yields c g outstanding receipt pong_sent in_time failed l r =
      (_, refl, leave-Led c config (skip l) (next r releases_capacity))
  receive_held-Yields c g outstanding receipt pong_sent in_time ended l r =
      (_, refl, leave-Led c config (skip l) (next r releases_capacity))

  receive-Yields :
      (c : Cell) (g : ℕ) (outstanding : Option ℕ) (receipt : Option FrameReceipt)
      (pong_sent in_time : Bool) (message : Message) (l : Connection Event)
      → Reach c l.cell
      → Yields c
          (receive deserialize try_from config g outstanding receipt pong_sent in_time message l)
  unfolding receive skip perform
  receive-Yields c g outstanding receipt pong_sent in_time message l r =
      let taken : Reach c (or_same (reserve_raw_frame_capacity l.cell) l.cell) =
        next r reserves_capacity in
      elim (Option-cases (reserve_raw_frame_capacity l.cell)) [
        | inl e ↦ rw (e, receive) (l, refl, r)
        | inr (d, e) ↦
            let held : Reach c d = subst (λ o. Reach c (or_same o l.cell)) e taken in
            elim (Option-cases receipt) [
              | inl n ↦
                  rw (e, n, receive)
                    (
                      _,
                      refl,
                      leave-Led c config (skip (record l { cell = mark_evidence_gap d }))
                          (next (lose_evidence held) releases_capacity),
                    )
              | inr (got, n) ↦
                  rw (e, n, receive)
                    (receive_held-Yields c g outstanding got pong_sent in_time message
                      (record l { cell = d }) held)
            ]
      ]

  Step-Led :
      (c : Cell) {l m : Connection Event}
      → Step deserialize try_from config l m
      → Reach c l.cell
      → Reach c m.cell
  unfolding perform connect_interrupted subscribe_interrupted subscribe_failed subscribe_sent
      ping_interrupted ping_failed ping_sent live_shutdown consumer_gone
  Step-Led c (begins l p) r = begin-Led c l r
  Step-Led c (waited l told p) r = wait_over-Led c config told l r
  Step-Led c (connect_fails l p) r = connect_failed-Led c config l r
  Step-Led c (connect_stops l gone p) r = disconnect (maybe_disconnect gone r)
  Step-Led c (connects_to l p) r = connect_succeeded-Led c l r
  Step-Led c (subscribe_stops l g gone p) r = disconnect (disconnect (maybe_disconnect gone r))
  Step-Led c (subscribe_fails l g p) r =
      after_session-Led c config (record l { cell = mark_disconnected l.cell }) (disconnect r)
  Step-Led c (subscribe_writes l g p) r = next r (subscription_written g)
  Step-Led c (ping_stops l g gone p) r =
      after_session-Led c config
        (record l { cell = mark_disconnected (if gone then mark_disconnected l.cell else l.cell) })
        (disconnect (maybe_disconnect gone r))
  Step-Led c (ping_fails l g p) r =
      after_session-Led c config (record l { cell = mark_disconnected l.cell }) (disconnect r)
  Step-Led c (ping_writes l g now p) r = r
  Step-Led c (shuts_down l g outstanding in_time p) r =
      leave-Led c config (record l { cell = if in_time then l.cell else mark_disconnected l.cell })
        (maybe_late in_time r)
  Step-Led c (consumer_leaves l g outstanding p) r =
      leave-Led c config (record l { cell = mark_consumer_closed l.cell }) (next r consumer_closed)
  Step-Led c (ticks l g outstanding now sent p) r =
      heartbeat_tick-Led c config g outstanding now sent l r
  Step-Led c (receives l m g outstanding receipt pong_sent in_time message p e) r =
      let (n, found, led) = receive-Yields c g outstanding receipt pong_sent in_time message l r in
      let same : n ≡ m = some-injective n m (sym found ∙ e) in subst (λ k. Reach c k.cell) same led
  Step-Led c (shares l call) r = next r call
  Step-Led c (tells l value) r = r

  pub Runs-Led :
      {l m : Connection Event} → Runs deserialize try_from config l m → Reach l.cell m.cell
  Runs-Led (still l) = here l.cell
  Runs-Led (then_step {l = l} {m = m} runs step) = Step-Led l.cell step (Runs-Led runs)

  -- The receipt of a message on a live connection yields a connection: the evidence of a frame never
  -- panics.
  pub receive_never_panics :
      (g : ℕ) (outstanding : Option ℕ) (receipt : Option FrameReceipt) (pong_sent in_time : Bool)
      (message : Message) (l : Connection Event)
      → (m : Connection Event) × (receive deserialize try_from config g outstanding receipt
            pong_sent in_time message l
          ≡ some m)
  receive_never_panics g outstanding receipt pong_sent in_time message l =
      let (m, e, _) =
        receive-Yields l.cell g outstanding receipt pong_sent in_time message l (here l.cell) in
      (m, e)

  -- A run of the loop, with the steps of other tasks between, keeps a well-formed cell well formed;
  -- its counters never fall and its sticky flags stay.
  pub loop_safety :
      {l m : Connection Event}
      → IsValid l.cell
      → Runs deserialize try_from config l m
      → IsValid m.cell × Progress l.cell.state m.cell.state
  loop_safety v runs = Reach-KeepsProgress (Runs-Led runs) v

  -- Once the consumer, the authority or a counter has closed the channel of a well-formed cell, no
  -- run of the loop makes it ready again.
  pub reconnection_keeps_closed :
      {l m : Connection Event}
      → IsValid l.cell
      → IsClosed l.cell.state
      → Runs deserialize try_from config l m
      → is_ready m.cell.state ≡ false
  reconnection_keeps_closed v h runs = closed_for_good v h (Runs-Led runs)
