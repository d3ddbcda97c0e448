-- ===== src/Ws/StateCell/Run/Calls.antt =====
-- auth/ws/state_cell: well-formedness, counters, flags and gaps under one call.
use rspm.Common.{ℕ, inl, inr, arith}
use rspm.Ws.State.{WsState, CredentialAuthority, RecoveryToken}
use rspm.Ws.StateCell.{Cell, publish_poisoned, update_state}
use rspm.Ws.StateCell.Marks.{
  mark_connecting, mark_disconnected, mark_subscription_written, mark_server_liveness_proven,
  mark_schema_gap, mark_delivery_gap, mark_consumer_closed, mark_evidence_gap, set_connecting,
  set_disconnected, set_subscription_written, set_server_liveness_proven, set_schema_gap,
  set_delivery_gap, set_consumer_closed, set_evidence_gap,
}
use rspm.Ws.StateCell.RawFrames.{reserve_raw_frame_capacity}
use rspm.Ws.StateCell.Ledger.{mark_enqueued, set_enqueued}
use rspm.Ws.StateCell.Recovery.{prepare_catch_up_finalization}
use rspm.Ws.StateCell.Progress.{Marked}
use rspm.Ws.StateCell.Progress.Closures.{
  set_connecting-Marked, set_disconnected-Marked, set_subscription_written-Marked,
  set_server_liveness_proven-Marked, set_schema_gap-Marked, set_delivery_gap-Marked,
  set_consumer_closed-Marked, set_evidence_gap-Marked, set_enqueued-Marked,
}
use rspm.Ws.StateCell.Progress.Operations.{
  Effect, Effect-refl, publish_poisoned-Effect, update_state-Effect, try_mark_connected-Effect,
  mark_authenticated_rest_proven-Effect, reserve_transport_sequences-Effect,
  reserve_raw_frame_sequence-Effect, retain_raw_frame-Effect, pending_raw_frames-Effect,
  snapshot-Effect, acknowledge_raw_frame_durable-Effect, mark_dropped-Effect,
}
use rspm.Ws.StateCell.Invariant.{IsValidState, IsValid}
use rspm.Ws.StateCell.Invariant.Closures.{
  set_connecting-IsValidState, set_disconnected-IsValidState, set_subscription_written-IsValidState,
  set_server_liveness_proven-IsValidState, set_schema_gap-IsValidState,
  set_delivery_gap-IsValidState, set_consumer_closed-IsValidState, set_evidence_gap-IsValidState,
  set_enqueued-IsValidState,
}
use rspm.Ws.StateCell.Invariant.Operations.{
  publish_poisoned-IsValid, update_state-IsValid, try_mark_connected-IsValid,
  mark_authenticated_rest_proven-IsValid, reserve_transport_sequences-IsValid,
  reserve_raw_frame_sequence-IsValid, retain_raw_frame-IsValid, pending_raw_frames-IsValid,
  snapshot-IsValid, acknowledge_raw_frame_durable-IsValid,
}
use rspm.Ws.StateCell.Invariant.Dropped.{mark_dropped-IsValid}
use rspm.Ws.StateCell.Invariant.Ledger.{acknowledge_durable-KeepsBoth}
use rspm.Ws.StateCell.Finalization.{prepare-cases}
use rspm.Ws.StateCell.Run.{
  Call, connecting, connected, disconnected, subscription_written, server_liveness_proven,
  authenticated_rest_proven, schema_gap, delivery_gap, consumer_closed, evidence_gap,
  authority_poisoned, reserves_transport_sequences, reserves_capacity, releases_capacity,
  reserves_frame_sequence, retains, reads_pending, reads_snapshot, acknowledges_frame, enqueues,
  drops, acknowledges, prepares, panics_with_state, panics_with_durable, panics_with_dropped,
  panics_with_raw_frames, perform,
}

-- Both at once.
abbrev pub Keeps : Cell → Cell → Type 0
Keeps c d = IsValid d × Effect c d

mark-Keeps :
    (closure : WsState → WsState) (c : Cell)
    → IsValid c
    → Marked c.state (closure c.state)
    → IsValidState (closure c.state)
    → Keeps c (update_state closure c)
mark-Keeps closure c v m w = (update_state-IsValid closure c v m w, update_state-Effect closure c m)

publish_poisoned-Keeps : (c : Cell) → IsValid c → Keeps c (publish_poisoned c)
publish_poisoned-Keeps c v = (publish_poisoned-IsValid c v, publish_poisoned-Effect c)

prepare-Keeps :
    (token : RecoveryToken) (authority : CredentialAuthority) (watermark minimum : ℕ) (c : Cell)
    → IsValid c
    → Keeps c (prepare_catch_up_finalization token authority watermark minimum c).0
prepare-Keeps token authority watermark minimum c v =
    elim (prepare-cases token authority watermark minimum c) [
      | inl e ↦ rw e (publish_poisoned-Keeps c v)
      | inr (inl e) ↦ rw e (v, Effect-refl c)
      | inr (inr (e, _, _, _, _)) ↦ rw e (v, Effect-refl c)
    ]

pub perform-Keeps : (call : Call) (c : Cell) → IsValid c → Keeps c (perform call c)
unfolding perform reserve_raw_frame_capacity mark_connecting mark_disconnected
    mark_subscription_written mark_server_liveness_proven mark_schema_gap mark_delivery_gap
    mark_consumer_closed mark_evidence_gap mark_enqueued
perform-Keeps connecting c v =
    mark-Keeps set_connecting c v (set_connecting-Marked c.state)
      (set_connecting-IsValidState c.state v.valid_state)
perform-Keeps disconnected c v =
    mark-Keeps set_disconnected c v (set_disconnected-Marked c.state)
      (set_disconnected-IsValidState c.state v.valid_state)
perform-Keeps (subscription_written generation) c v =
    mark-Keeps (set_subscription_written generation) c v
      (set_subscription_written-Marked generation c.state)
      (set_subscription_written-IsValidState generation c.state v.valid_state)
perform-Keeps (server_liveness_proven generation) c v =
    mark-Keeps (set_server_liveness_proven generation) c v
      (set_server_liveness_proven-Marked generation c.state)
      (set_server_liveness_proven-IsValidState generation c.state v.valid_state)
perform-Keeps schema_gap c v =
    mark-Keeps set_schema_gap c v (set_schema_gap-Marked c.state)
      (set_schema_gap-IsValidState c.state v.valid_state)
perform-Keeps delivery_gap c v =
    mark-Keeps set_delivery_gap c v (set_delivery_gap-Marked c.state)
      (set_delivery_gap-IsValidState c.state v.valid_state)
perform-Keeps consumer_closed c v =
    mark-Keeps set_consumer_closed c v (set_consumer_closed-Marked c.state)
      (set_consumer_closed-IsValidState c.state v.valid_state)
perform-Keeps evidence_gap c v =
    mark-Keeps set_evidence_gap c v (set_evidence_gap-Marked c.state)
      (set_evidence_gap-IsValidState c.state v.valid_state)
perform-Keeps (enqueues range) c v =
    mark-Keeps (set_enqueued range) c v (set_enqueued-Marked range c.state)
      (set_enqueued-IsValidState range c.state v.valid_state)
perform-Keeps connected c v = (try_mark_connected-IsValid c v, try_mark_connected-Effect c)
perform-Keeps (authenticated_rest_proven token authority) c v = (
  mark_authenticated_rest_proven-IsValid token authority c v,
  mark_authenticated_rest_proven-Effect token authority c,
)
perform-Keeps (reserves_transport_sequences event_count) c v = (
  reserve_transport_sequences-IsValid event_count c v,
  reserve_transport_sequences-Effect event_count c,
)
perform-Keeps reserves_frame_sequence c v =
    (reserve_raw_frame_sequence-IsValid c v, reserve_raw_frame_sequence-Effect c)
perform-Keeps (retains evidence) c v =
    (retain_raw_frame-IsValid evidence c v, retain_raw_frame-Effect evidence c)
perform-Keeps reads_pending c v = (pending_raw_frames-IsValid c v, pending_raw_frames-Effect c)
perform-Keeps reads_snapshot c v = (snapshot-IsValid c v, snapshot-Effect c)
perform-Keeps (acknowledges_frame frame_sequence) c v = (
  acknowledge_raw_frame_durable-IsValid frame_sequence c v,
  acknowledge_raw_frame_durable-Effect frame_sequence c,
)
perform-Keeps (drops range) c v = (mark_dropped-IsValid range c v, mark_dropped-Effect range c)
perform-Keeps authority_poisoned c v = publish_poisoned-Keeps c v
perform-Keeps (acknowledges sequence) c v = acknowledge_durable-KeepsBoth sequence c v
perform-Keeps (prepares token authority watermark minimum) c v =
    prepare-Keeps token authority watermark minimum c v
perform-Keeps reserves_capacity c v = ground arith
perform-Keeps releases_capacity c v = ground arith
perform-Keeps panics_with_state c v = ground arith
perform-Keeps panics_with_durable c v = ground arith
perform-Keeps panics_with_dropped c v = ground arith
perform-Keeps panics_with_raw_frames c v = ground arith
