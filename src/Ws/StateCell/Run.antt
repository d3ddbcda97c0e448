-- ===== src/Ws/StateCell/Run.antt =====
-- Histories of the cell: every operation as a call, the commit of an earlier preparation, and the
-- panics of threads that hold a mutex. Calls of several threads interleave between operations.
pub mod Calls
pub mod Safety
pub mod Gaps
pub mod Fresh
use rspm.Common.{ℕ, ◌≡◌, true, Option, none, some}
use rspm.Ws.State.{CredentialAuthority, RecoveryToken, CatchUpFinalization}
use rspm.Ws.Frame.{RawFrame}
use rspm.Ws.StateCell.{Cell, TransportSequenceRange, publish_poisoned, snapshot}
use rspm.Ws.StateCell.Marks.{
  mark_connecting, try_mark_connected, mark_subscription_written, mark_server_liveness_proven,
  mark_authenticated_rest_proven, mark_disconnected, mark_schema_gap, mark_delivery_gap,
  mark_consumer_closed, mark_evidence_gap, reserve_transport_sequences,
}
use rspm.Ws.StateCell.RawFrames.{
  reserve_raw_frame_capacity, release_permit, reserve_raw_frame_sequence, retain_raw_frame,
  pending_raw_frames, acknowledge_raw_frame_durable,
}
use rspm.Ws.StateCell.Ledger.{mark_enqueued, mark_dropped, acknowledge_durable}
use rspm.Ws.StateCell.Recovery.{prepare_catch_up_finalization, commit_catch_up_finalization}
use rspm.Ws.StateCell.Invariant.{IsValid}

pub data Call : Type 0 where
  connecting connected disconnected : Call
  subscription_written server_liveness_proven : ℕ → Call
  authenticated_rest_proven : RecoveryToken → CredentialAuthority → Call
  schema_gap delivery_gap consumer_closed evidence_gap authority_poisoned : Call
  reserves_transport_sequences : ℕ → Call
  reserves_capacity releases_capacity reserves_frame_sequence : Call
  retains : RawFrame → Call
  reads_pending reads_snapshot : Call
  acknowledges_frame : ℕ → Call
  enqueues drops : TransportSequenceRange → Call
  acknowledges : ℕ → Call
  prepares : RecoveryToken → CredentialAuthority → ℕ → ℕ → Call
  panics_with_state panics_with_durable panics_with_dropped panics_with_raw_frames : Call

abbrev pub or_same : Option Cell → Cell → Cell
or_same none c = c
or_same (some d) c = d

unfoldable pub perform : Call → Cell → Cell
perform connecting c = mark_connecting c
perform connected c = (try_mark_connected c).0
perform disconnected c = mark_disconnected c
perform (subscription_written generation) c = mark_subscription_written generation c
perform (server_liveness_proven generation) c = mark_server_liveness_proven generation c
perform (authenticated_rest_proven token authority) c =
    (mark_authenticated_rest_proven token authority c).0
perform schema_gap c = mark_schema_gap c
perform delivery_gap c = mark_delivery_gap c
perform consumer_closed c = mark_consumer_closed c
perform evidence_gap c = mark_evidence_gap c
perform authority_poisoned c = publish_poisoned c
perform (reserves_transport_sequences event_count) c = (reserve_transport_sequences event_count c).0
perform reserves_capacity c = or_same (reserve_raw_frame_capacity c) c
perform releases_capacity c = release_permit c
perform reserves_frame_sequence c = (reserve_raw_frame_sequence c).0
perform (retains evidence) c = (retain_raw_frame evidence c).0
perform reads_pending c = (pending_raw_frames c).0
perform reads_snapshot c = (snapshot c).0
perform (acknowledges_frame frame_sequence) c = (acknowledge_raw_frame_durable frame_sequence c).0
perform (enqueues range) c = mark_enqueued range c
perform (drops range) c = (mark_dropped range c).0
perform (acknowledges sequence) c = (acknowledge_durable sequence c).0
perform (prepares token authority watermark minimum) c =
    (prepare_catch_up_finalization token authority watermark minimum c).0
perform panics_with_state c = record c { state_mutex = true }
perform panics_with_durable c = record c { durable_mutex = true }
perform panics_with_dropped c = record c { dropped_mutex = true }
perform panics_with_raw_frames c = record c { raw_frames_mutex = true }

-- A history without a commit.
pub data Quiet : Cell → Cell → Type 0 where
  here : (c : Cell) → Quiet c c
  next : {c d : Cell} → Quiet c d → (call : Call) → Quiet c (perform call d)

-- A history. What is committed was prepared on some well-formed cell, an earlier one or another's.
pub data Reach : Cell → Cell → Type 0 where
  here : (c : Cell) → Reach c c
  next : {c d : Cell} → Reach c d → (call : Call) → Reach c (perform call d)
  commit :
      {c d : Cell}
      → Reach c d
      → (token : RecoveryToken) → (authority : CredentialAuthority) → (watermark minimum : ℕ)
      → (prepared : Cell) → (f : CatchUpFinalization) → IsValid prepared
      → (prepare_catch_up_finalization token authority watermark minimum prepared).1 ≡ some f
      → Reach c (commit_catch_up_finalization f d).0
