-- ===== src/Ws/Connection/Steps/Evidence.antt =====
-- auth/ws/connection.rs: queued batches and their evidence, for the acceptance of a frame.
use mathlib.Core.Option.{some-injective}
use rspm.Common.{
  ℕ, Bool, true, false, not, Option, some, List, ◌∷◌, ◌≡◌, ◌⊎◌, inl, inr, refl, ◌∙◌, ap, if_elim,
  arith, Option-cases, is_some, subst,
}
use rspm.Common.OrderedMap.{lookup}
use rspm.Ws.Frame.{
  FrameReceipt, RawFrame, EventBatch, sequence_width, with_transport_context, raw_evidence,
}
use rspm.Ws.Connection.Steps.Histories.{context_evidence}
use rspm.Ws.State.{WsState}
use rspm.Ws.StateCell.{
  Cell, TransportSequenceRange, snapshot, publish_poisoned, update_state, update-cases,
}
use rspm.Ws.StateCell.Marks.{
  mark_disconnected, mark_evidence_gap, mark_schema_gap, mark_delivery_gap, set_disconnected,
  set_evidence_gap, set_schema_gap, reserve_transport_sequences,
}
use rspm.Ws.StateCell.RawFrames.{release_permit, reserve_raw_frame_sequence, retain_raw_frame}
use rspm.Ws.StateCell.Ledger.{mark_enqueued, set_enqueued}
use rspm.Ws.StateCell.Invariant.{IsValid}
use rspm.Ws.StateCell.Run.{
  perform, reserves_transport_sequences, reserves_frame_sequence, reads_snapshot,
}
use rspm.Ws.StateCell.Run.Calls.{perform-Keeps}
use rspm.Ws.StateCell.Delivery.Retention.{retain_raw_frame_adds}
use rspm.Ws.Connection.{
  Config, Connection, stop, retry, after_session, leave, next_reconnect_attempt,
  reconnect_exhausted,
}
use rspm.Ws.Connection.Receive.{close_and_leave, deliver, accept}

poisoned_frames : (c : Cell) → (publish_poisoned c).raw_frames ≡ c.raw_frames
unfolding publish_poisoned
poisoned_frames c = ground arith

update_state_frames :
    (closure : WsState → WsState) (c : Cell) → (update_state closure c).raw_frames ≡ c.raw_frames
unfolding update_state
update_state_frames closure c = elim (update-cases tt (λ s. (closure s, tt)) c) [
  | inl e ↦ rw (e, update_state) (poisoned_frames c)
  | inr (e, _, _) ↦ rw (e, update_state) refl
]

module _ {Event : Type 0} where
  -- The second connection has the frames and the queue of the first.
  abbrev Keeps : List (ℕ × RawFrame) → List (EventBatch Event) → Connection Event → Type 0
  Keeps frames queue l = (l.cell.raw_frames ≡ frames) × (l.queue ≡ queue)

  stop-Keeps : (l : Connection Event) → Keeps l.cell.raw_frames l.queue (stop l)
  unfolding stop mark_disconnected
  stop-Keeps l = (update_state_frames set_disconnected l.cell, refl)

  retry-Keeps :
      (config : Config) (l : Connection Event) → Keeps l.cell.raw_frames l.queue (retry config l)
  unfolding retry mark_evidence_gap
  retry-Keeps config l = elim (Option-cases (next_reconnect_attempt l.reconnect_attempt)) [
    | inl e ↦
        let m = record l { cell = mark_evidence_gap l.cell } in
        let (f, q) = stop-Keeps m in
        rw (e, retry) (f ∙ update_state_frames set_evidence_gap l.cell, q)
    | inr (n, e) ↦
        rw (e, retry)
          (if_elim (Keeps l.cell.raw_frames l.queue)
            (reconnect_exhausted config.max_reconnect_attempts n)
            (λ _. stop-Keeps (record l { reconnect_attempt = n })) (λ _. (refl, refl)))
  ]

  pub leave-Keeps :
      (config : Config) (l : Connection Event) → Keeps l.cell.raw_frames l.queue (leave config l)
  unfolding leave after_session mark_disconnected
  leave-Keeps config l =
      let m = record l { cell = mark_disconnected l.cell } in
      let kept : m.cell.raw_frames ≡ l.cell.raw_frames =
        update_state_frames set_disconnected l.cell in
      if_elim (Keeps l.cell.raw_frames l.queue) l.shutdown
        (λ _. let (f, q) = stop-Keeps m in (f ∙ kept, q))
        (λ _. let (f, q) = retry-Keeps config m in (f ∙ kept, q))

  close_and_leave-Keeps :
      (config : Config) (in_time : Bool) (l : Connection Event)
      → Keeps l.cell.raw_frames l.queue (close_and_leave config in_time l)
  unfolding close_and_leave mark_disconnected
  close_and_leave-Keeps config true l = leave-Keeps config l
  close_and_leave-Keeps config false l =
      let (f, q) = leave-Keeps config (record l { cell = mark_disconnected l.cell }) in
      (f ∙ update_state_frames set_disconnected l.cell, q)

  -- The queue is as it was, or has one batch more, of the generation, whose evidence is retained.
  abbrev pub Backed : ℕ → List (EventBatch Event) → Connection Event → Type 0
  Backed g queue m =
      (m.queue ≡ queue)
      ⊎ ((batch : EventBatch Event) × (evidence : RawFrame) × (m.queue ≡ batch ∷ queue)
          × (raw_evidence batch ≡ some evidence)
          × (lookup evidence.frame_sequence m.cell.raw_frames ≡ some evidence)
          × (batch.socket_generation ≡ g))

  backed :
      (g : ℕ) (batch : EventBatch Event) (evidence : RawFrame) (queue : List (EventBatch Event))
      (frames : List (ℕ × RawFrame)) (m : Connection Event)
      → Keeps frames (batch ∷ queue) m
      → raw_evidence batch ≡ some evidence
      → lookup evidence.frame_sequence frames ≡ some evidence
      → batch.socket_generation ≡ g
      → Backed g queue m
  backed g batch evidence queue frames m (f, q) e k same =
      inr (batch, evidence, q, e, ap (lookup evidence.frame_sequence) f ∙ k, same)

  -- Every connection that the receipt yields is backed.
  abbrev pub AllBacked : ℕ → List (EventBatch Event) → Option (Connection Event) → Type 0
  AllBacked g queue o = (m : Connection Event) → o ≡ some m → Backed g queue m

  pub of_some :
      (g : ℕ) (queue : List (EventBatch Event)) (n : Connection Event)
      → Backed g queue n
      → AllBacked g queue (some n)
  of_some g queue n b m e = subst (Backed g queue) (some-injective n m e) b

  deliver_backed :
      (config : Config) (g : ℕ) (in_time : Bool) (range : TransportSequenceRange)
      (batch : EventBatch Event) (evidence : RawFrame) (l : Connection Event)
      → IsValid l.cell
      → raw_evidence batch ≡ some evidence
      → batch.socket_generation ≡ g
      → AllBacked g l.queue (deliver config in_time range batch l)
  unfolding deliver mark_enqueued mark_schema_gap
  deliver_backed config g in_time range batch evidence l v e same =
      let d = (retain_raw_frame evidence l.cell).0 in
      let queued = mark_enqueued range d in
      let enqueued : queued.raw_frames ≡ d.raw_frames =
        update_state_frames (set_enqueued range) d in
      let marked = record l { cell = mark_schema_gap queued; queue = batch ∷ l.queue } in
      rw (e, deliver)
        (of_some g l.queue _ (
          if_elim (Backed g l.queue) (not (retain_raw_frame evidence l.cell).1)
            (λ _. inl (leave-Keeps config (record l { cell = mark_evidence_gap d })).1)
            (λ kept.
              let done : (retain_raw_frame evidence l.cell).1 ≡ true = ground (arith, kept) in
              let (_, found) = retain_raw_frame_adds evidence l.cell v done in
              let on_record : lookup evidence.frame_sequence d.raw_frames ≡ some evidence =
                ground (arith, found evidence.frame_sequence) in
              if_elim (Backed g l.queue) (is_some batch.frame_gap)
                (λ _.
                  let (f, q) = close_and_leave-Keeps config in_time marked in
                  backed g batch evidence l.queue d.raw_frames
                    (close_and_leave config in_time marked)
                    (f ∙ update_state_frames set_schema_gap queued ∙ enqueued, q) e on_record same)
                (λ _.
                  backed g batch evidence l.queue d.raw_frames
                    (record l { cell = queued; queue = batch ∷ l.queue }) (enqueued, refl) e
                    on_record same))))

  context_generation :
      (b : EventBatch Event) (receipt : FrameReceipt) (f sequence g gap_version : ℕ)
      → (with_transport_context b receipt f sequence g gap_version).socket_generation ≡ g
  unfolding with_transport_context
  context_generation b receipt f sequence g gap_version = refl

  pub accept_backed :
      (config : Config) (g : ℕ) (receipt : FrameReceipt) (in_time : Bool) (batch : EventBatch Event)
      (l : Connection Event)
      → IsValid l.cell
      → AllBacked g l.queue (accept config g receipt in_time batch l)
  unfolding accept perform
  accept_backed config g receipt in_time batch l v =
      let width = sequence_width batch in
      let d = (reserve_transport_sequences width l.cell).0 in
      let (ranged, _) = perform-Keeps (reserves_transport_sequences width) l.cell v in
      let d' = (reserve_raw_frame_sequence d).0 in
      let (numbered, _) = perform-Keeps reserves_frame_sequence d ranged in
      let read = snapshot d' in
      let (snapped, _) = perform-Keeps reads_snapshot d' numbered in
      elim (Option-cases (reserve_transport_sequences width l.cell).1) [
        | inl e ↦
            rw (e, accept)
              (of_some g l.queue _ (
                inl
                  (close_and_leave-Keeps config in_time
                    (record l { cell = release_permit (mark_delivery_gap d) })).1))
        | inr (range, e) ↦ elim (Option-cases (reserve_raw_frame_sequence d).1) [
          | inl n ↦
              rw (e, n, accept)
                (of_some g l.queue _ (
                  inl
                    (leave-Keeps config
                      (record l { cell = release_permit (mark_evidence_gap d') })).1))
          | inr (f, n) ↦
              let (evidence, found) =
                context_evidence batch l.cell range receipt f g read.1.gap_version e in
              rw (e, n, accept)
                (deliver_backed config g in_time range
                  (with_transport_context batch receipt f range.first g read.1.gap_version) evidence
                  (record l { cell = read.0 }) snapped found
                  (context_generation batch receipt f range.first g read.1.gap_version))
        ]
      ]
