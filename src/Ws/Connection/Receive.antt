-- ===== src/Ws/Connection/Receive.antt =====
-- auth/ws/connection.rs: the receipt of one message on a live socket. The permit of the raw frame
-- is taken before the socket is polled; a message that becomes no frame gives it back.
use rspm.Common.{
  ℕ, Bool, false, Option, none, some, List, [], ◌∷◌, if◌then◌else◌, is_some, not, ◌&&◌, ◌==◌,
}
use rspm.Ws.Frame.{
  FrameReceipt, EventBatch, capture_text_frame, capture_binary_frame, capture_raw_frame,
  sequence_width, with_transport_context, raw_evidence,
}
use rspm.Ws.StateCell.{TransportSequenceRange, snapshot}
use rspm.Ws.StateCell.Marks.{
  mark_server_liveness_proven, mark_disconnected, mark_schema_gap, mark_delivery_gap,
  mark_evidence_gap, reserve_transport_sequences,
}
use rspm.Ws.StateCell.RawFrames.{
  reserve_raw_frame_capacity, release_permit, reserve_raw_frame_sequence, retain_raw_frame,
}
use rspm.Ws.StateCell.Ledger.{mark_enqueued}
use rspm.Ws.Connection.{Config, Connection, live, leave}

-- What `socket.next()` yields. A text is its bytes; `failed` is an error, `ended` the end.
pub data Message : Type 0 where
  text binary frame ping : List ℕ → Message
  pong close failed ended : Message

-- The text "PONG".
abbrev pub is_pong : List ℕ → Bool
is_pong (p ∷ o ∷ n ∷ g ∷ []) = p == 80 && o == 79 && n == 78 && g == 71
is_pong _ = false

module _ {Event : Type 0} where
  -- A message that becomes no frame: the permit returns.
  unfoldable pub skip : Connection Event → Connection Event
  skip l = record l { cell = release_permit l.cell }

  -- The socket is closed, and marked if it does not close in time, before the loop is left.
  unfoldable pub close_and_leave : Config → Bool → Connection Event → Connection Event
  unfolding leave
  close_and_leave config closed_in_time l =
      leave config (record l { cell = if closed_in_time then l.cell else mark_disconnected l.cell })

  -- The batch goes to the queue once its evidence is retained. `none` is the panic of
  -- `raw_evidence`.
  unfoldable pub deliver :
      Config
      → Bool
      → TransportSequenceRange
      → EventBatch Event
      → Connection Event
      → Option (Connection Event)
  unfolding close_and_leave leave
  deliver config closed_in_time range batch l = elim (raw_evidence batch) [
    | none ↦ none
    | some evidence ↦
        let (c, retained) = retain_raw_frame evidence l.cell in
        let c' = mark_enqueued range c in
        let sent = record l { cell = c'; queue = batch ∷ l.queue } in
        some (
          if not retained
          then leave config (record l { cell = mark_evidence_gap c })
          else if is_some batch.frame_gap
          then close_and_leave config closed_in_time (record sent { cell = mark_schema_gap c' })
          else sent)
  ]

  -- The frame takes its sequences and its context.
  unfoldable pub accept :
      Config
      → ℕ
      → FrameReceipt
      → Bool
      → EventBatch Event
      → Connection Event
      → Option (Connection Event)
  unfolding deliver close_and_leave leave
  accept config generation receipt closed_in_time batch l =
      let (c, range) = reserve_transport_sequences (sequence_width batch) l.cell in
      let (c', frame_sequence) = reserve_raw_frame_sequence c in
      let (c'', s) = snapshot c' in
      elim range [
        | none ↦ some (
            close_and_leave config closed_in_time
              (record l { cell = release_permit (mark_delivery_gap c) }))
        | some r ↦ elim frame_sequence [
          | none ↦ some (leave config (record l { cell = release_permit (mark_evidence_gap c') }))
          | some f ↦
              deliver config closed_in_time r
                (with_transport_context batch receipt f r.first generation s.gap_version)
                (record l { cell = c'' })
        ]
      ]

module _ {Wire Event : Type 0} (deserialize : List ℕ → Option (List Wire))
    (try_from : Wire → Option Event) where
  -- The message, with its receipt, under a permit that is held. `pong_sent` says whether the answer
  -- to a control PING went out.
  unfoldable pub receive_held :
      Config
      → ℕ
      → Option ℕ
      → FrameReceipt
      → Bool
      → Bool
      → Message
      → Connection Event
      → Option (Connection Event)
  unfolding accept skip leave
  receive_held config generation outstanding receipt pong_sent closed_in_time (text bytes) l =
      let accepted =
        accept config generation receipt closed_in_time
          (capture_text_frame deserialize try_from bytes) l in
      let proven = record (skip l) {
        cell = mark_server_liveness_proven generation (skip l).cell;
        phase = live generation none;
      } in
      if is_pong bytes then some (if is_some outstanding then proven else skip l) else accepted
  receive_held config generation outstanding receipt pong_sent closed_in_time (binary bytes) l =
      accept config generation receipt closed_in_time (capture_binary_frame bytes) l
  receive_held config generation outstanding receipt pong_sent closed_in_time (frame payload) l =
      accept config generation receipt closed_in_time (capture_raw_frame payload) l
  receive_held config generation outstanding receipt pong_sent closed_in_time (ping payload) l =
      some (if pong_sent then skip l else leave config (skip l))
  receive_held config generation outstanding receipt pong_sent closed_in_time pong l = some (skip l)
  receive_held config generation outstanding receipt pong_sent closed_in_time _ l =
      some (leave config (skip l))

  -- Without a permit the message is not polled; without a receipt the loop is left.
  unfoldable pub receive :
      Config
      → ℕ
      → Option ℕ
      → Option FrameReceipt
      → Bool
      → Bool
      → Message
      → Connection Event
      → Option (Connection Event)
  unfolding receive_held skip leave
  receive config generation outstanding receipt pong_sent closed_in_time message l =
      elim (reserve_raw_frame_capacity l.cell) [
        | none ↦ some l
        | some c ↦ elim receipt [
          | none ↦ some (leave config (skip (record l { cell = mark_evidence_gap c })))
          | some r ↦
              receive_held config generation outstanding r pong_sent closed_in_time message
                (record l { cell = c })
        ]
      ]
