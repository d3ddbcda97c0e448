-- ===== src/Ws/Connection/Steps/Queue.antt =====
-- auth/ws/connection.rs: the queue under the receipt of a message.
use rspm.Common.{
  ℕ, Bool, Option, some, List, ◌∷◌, ◌≡◌, ◌⊎◌, inl, inr, refl, if_elim, Option-cases, is_some, subst,
}
use rspm.Common.OrderedMap.{lookup}
use rspm.Ws.Frame.{
  FrameReceipt, RawFrame, EventBatch, capture_text_frame, capture_binary_frame, capture_raw_frame,
  raw_evidence,
}
use rspm.Ws.StateCell.Marks.{mark_evidence_gap}
use rspm.Ws.StateCell.RawFrames.{reserve_raw_frame_capacity}
use rspm.Ws.StateCell.Invariant.{IsValid}
use rspm.Ws.StateCell.Run.{perform, reserves_capacity, or_same}
use rspm.Ws.StateCell.Run.Calls.{perform-Keeps}
use rspm.Ws.Connection.{Config, Connection}
use rspm.Ws.Connection.Receive.{
  Message, text, binary, frame, ping, pong, close, failed, ended, is_pong, skip, receive_held,
  receive,
}
use rspm.Ws.Connection.Steps.Evidence.{Backed, AllBacked, of_some, accept_backed, leave-Keeps}

module _ {Wire Event : Type 0} (deserialize : List ℕ → Option (List Wire))
    (try_from : Wire → Option Event) (config : Config) where
  receive_held_backed :
      (g : ℕ) (outstanding : Option ℕ) (receipt : FrameReceipt) (pong_sent in_time : Bool)
      (message : Message) (l : Connection Event)
      → IsValid l.cell
      → AllBacked g l.queue (
          receive_held deserialize try_from config g outstanding receipt pong_sent in_time message
            l)
  unfolding receive_held skip
  receive_held_backed g outstanding receipt pong_sent in_time (text bytes) l v =
      if_elim (AllBacked g l.queue) (is_pong bytes)
        (λ _.
          of_some g l.queue _
            (if_elim (Backed g l.queue) (is_some outstanding) (λ _. inl refl) (λ _. inl refl)))
        (λ _.
          accept_backed config g receipt in_time (capture_text_frame deserialize try_from bytes) l
            v)
  receive_held_backed g outstanding receipt pong_sent in_time (binary bytes) l v =
      accept_backed config g receipt in_time (capture_binary_frame bytes) l v
  receive_held_backed g outstanding receipt pong_sent in_time (frame payload) l v =
      accept_backed config g receipt in_time (capture_raw_frame payload) l v
  receive_held_backed g outstanding receipt pong_sent in_time (ping payload) l v =
      of_some g l.queue _ (
        if_elim (Backed g l.queue) pong_sent (λ _. inl refl)
          (λ _. inl (leave-Keeps config (skip l)).1))
  receive_held_backed g outstanding receipt pong_sent in_time pong l v =
      of_some g l.queue _ (inl refl)
  receive_held_backed g outstanding receipt pong_sent in_time close l v =
      of_some g l.queue _ (inl (leave-Keeps config (skip l)).1)
  receive_held_backed g outstanding receipt pong_sent in_time failed l v =
      of_some g l.queue _ (inl (leave-Keeps config (skip l)).1)
  receive_held_backed g outstanding receipt pong_sent in_time ended l v =
      of_some g l.queue _ (inl (leave-Keeps config (skip l)).1)

  receive_backed :
      (g : ℕ) (outstanding : Option ℕ) (receipt : Option FrameReceipt) (pong_sent in_time : Bool)
      (message : Message) (l : Connection Event)
      → IsValid l.cell
      → AllBacked g l.queue
          (receive deserialize try_from config g outstanding receipt pong_sent in_time message l)
  unfolding receive perform
  receive_backed g outstanding receipt pong_sent in_time message l v =
      let (taken, _) = perform-Keeps reserves_capacity l.cell v in
      elim (Option-cases (reserve_raw_frame_capacity l.cell)) [
        | inl e ↦ rw (e, receive) (of_some g l.queue l (inl refl))
        | inr (d, e) ↦ elim (Option-cases receipt) [
          | inl n ↦
              rw (e, n, receive)
                (of_some g l.queue _
                  (inl (leave-Keeps config (skip (record l { cell = mark_evidence_gap d }))).1))
          | inr (got, n) ↦
              rw (e, n, receive)
                (receive_held_backed g outstanding got pong_sent in_time message
                  (record l { cell = d }) (subst (λ o. IsValid (or_same o l.cell)) e taken))
        ]
      ]

  -- From a well-formed cell, a message puts one batch at most into the queue, and only a batch whose
  -- evidence is on record under its frame sequence and whose generation is that of the socket.
  pub queued_is_retained :
      (g : ℕ) (outstanding : Option ℕ) (receipt : Option FrameReceipt) (pong_sent in_time : Bool)
      (message : Message) (l m : Connection Event)
      → IsValid l.cell
      → receive deserialize try_from config g outstanding receipt pong_sent in_time message l
        ≡ some m
      → (m.queue ≡ l.queue)
        ⊎ ((batch : EventBatch Event) × (evidence : RawFrame) × (m.queue ≡ batch ∷ l.queue)
            × (raw_evidence batch ≡ some evidence)
            × (lookup evidence.frame_sequence m.cell.raw_frames ≡ some evidence)
            × (batch.socket_generation ≡ g))
  queued_is_retained g outstanding receipt pong_sent in_time message l m v h =
      receive_backed g outstanding receipt pong_sent in_time message l v m h
