-- ===== src/Ws/StateCell/Progress/Operations.antt =====
-- auth/ws/state_cell: counters, flags and gaps under each operation but the commit.
use rspm.Common.{ℕ, zero, suc, inl, inr, true, none, arith}
use rspm.Ws.State.{WsState, CredentialAuthority, RecoveryToken}
use rspm.Ws.Frame.{RawFrame}
use rspm.Ws.StateCell.{
  Cell, TransportSequenceRange, fail_closed_after_poison, publish_poisoned, lock, update,
  update_state, snapshot, lock-cases, update-cases,
}
use rspm.Ws.StateCell.Marks.{
  set_connected, set_authenticated_rest_proven, set_evidence_gap, set_transport_sequences,
  mark_evidence_gap, try_mark_connected, mark_authenticated_rest_proven,
  reserve_transport_sequences,
}
use rspm.Ws.StateCell.RawFrames.{
  set_raw_frame_sequence, set_retained, reserve_raw_frame_sequence, retain_raw_frame,
  insert_raw_frame, pending_raw_frames, acknowledge_raw_frame_durable, remove_raw_frame,
}
use rspm.Ws.StateCell.Ledger.{mark_dropped, drop_range}
use rspm.Ws.StateCell.Progress.{Progress, Unrecovered, Marked, Progress-trans, Unrecovered-trans}
use rspm.Ws.StateCell.Progress.Closures.{
  set_connected-Marked, set_authenticated_rest_proven-Marked, set_evidence_gap-Marked,
  set_delivery_lost-Marked, set_transport_sequences-Marked, set_raw_frame_sequence-Marked,
}

-- The effect of an operation that is no commit.
pub record Effect (c d : Cell) : Type 0 where
  pub progress : Progress c.state d.state
  pub unrecovered : Unrecovered c.state d.state

pub Effect-refl : (c : Cell) → Effect c c
Effect-refl c = ground arith

pub Effect-trans : {c d e : Cell} → Effect c d → Effect d e → Effect c e
Effect-trans p q = record {
  progress = Progress-trans p.progress q.progress;
  unrecovered = Unrecovered-trans p.unrecovered q.unrecovered;
}

pub fail_closed_after_poison-Effect : (c : Cell) → Effect c (fail_closed_after_poison c)
unfolding fail_closed_after_poison
fail_closed_after_poison-Effect c = ground arith

pub publish_poisoned-Effect : (c : Cell) → Effect c (publish_poisoned c)
unfolding publish_poisoned
publish_poisoned-Effect c = ground arith

pub lock-Effect : (c : Cell) → Effect c (lock c).0
unfolding lock
lock-Effect c = ground arith

pub update-Effect :
    {A : Type 0} (captured : A) (closure : WsState → WsState × A) (c : Cell)
    → Marked c.state (closure c.state).0
    → Effect c (update captured closure c).0
update-Effect captured closure c m = elim (update-cases captured closure c) [
  | inl e ↦ rw e (publish_poisoned-Effect c)
  | inr (e, _, _) ↦ rw e (record { progress = m.progress; unrecovered = m.unrecovered })
]

pub update_state-Effect :
    (closure : WsState → WsState) (c : Cell)
    → Marked c.state (closure c.state)
    → Effect c (update_state closure c)
unfolding update_state
update_state-Effect closure c m = update-Effect tt (λ s. (closure s, tt)) c m

pub snapshot-Effect : (c : Cell) → Effect c (snapshot c).0
unfolding snapshot
snapshot-Effect c = ground arith

pub try_mark_connected-Effect : (c : Cell) → Effect c (try_mark_connected c).0
unfolding try_mark_connected
try_mark_connected-Effect c = update-Effect _ set_connected c (set_connected-Marked c.state)

insert_raw_frame-Effect :
    (evidence : RawFrame) (c : Cell) → Effect c (insert_raw_frame evidence c).0
unfolding insert_raw_frame set_retained
insert_raw_frame-Effect evidence c = ground arith

pub mark_evidence_gap-Effect : (c : Cell) → Effect c (mark_evidence_gap c)
unfolding mark_evidence_gap
mark_evidence_gap-Effect c =
    update_state-Effect set_evidence_gap c (set_evidence_gap-Marked c.state)

pub retain_raw_frame-Effect :
    (evidence : RawFrame) (c : Cell) → Effect c (retain_raw_frame evidence c).0
unfolding retain_raw_frame
retain_raw_frame-Effect evidence c = ground (
  arith,
  lock-cases c,
  publish_poisoned-Effect c,
  insert_raw_frame-Effect evidence c,
  mark_evidence_gap-Effect c,
)

drop_range-Effect : (range : TransportSequenceRange) (c : Cell) → Effect c (drop_range range c).0
unfolding drop_range
drop_range-Effect range c = ground (
  arith,
  set_delivery_lost-Marked c.state,
  set_delivery_lost-Marked (record c.state { consumer_closed = true }),
)

pub mark_dropped-Effect :
    (range : TransportSequenceRange) (c : Cell) → Effect c (mark_dropped range c).0
unfolding mark_dropped
mark_dropped-Effect range c = ground (
  arith,
  lock-cases c,
  publish_poisoned-Effect c,
  drop_range-Effect range c,
  set_delivery_lost-Marked c.state,
)

pub mark_authenticated_rest_proven-Effect :
    (token : RecoveryToken) (authority : CredentialAuthority) (c : Cell)
    → Effect c (mark_authenticated_rest_proven token authority c).0
unfolding mark_authenticated_rest_proven
mark_authenticated_rest_proven-Effect token authority c =
    update-Effect _ (set_authenticated_rest_proven token authority) c
      (set_authenticated_rest_proven-Marked token authority c.state)

pub reserve_transport_sequences-Effect :
    (event_count : ℕ) (c : Cell) → Effect c (reserve_transport_sequences event_count c).0
unfolding reserve_transport_sequences
reserve_transport_sequences-Effect zero c = Effect-refl c
reserve_transport_sequences-Effect (suc n) c = ground (
  arith,
  update-Effect none (set_transport_sequences (suc n)) c
      (set_transport_sequences-Marked (suc n) c.state),
)

pub reserve_raw_frame_sequence-Effect : (c : Cell) → Effect c (reserve_raw_frame_sequence c).0
unfolding reserve_raw_frame_sequence
reserve_raw_frame_sequence-Effect c =
    update-Effect _ set_raw_frame_sequence c (set_raw_frame_sequence-Marked c.state)

pub pending_raw_frames-Effect : (c : Cell) → Effect c (pending_raw_frames c).0
unfolding pending_raw_frames
pending_raw_frames-Effect c = ground (arith, publish_poisoned-Effect c)

remove_raw_frame-Effect :
    (frame_sequence : ℕ) (c : Cell) → Effect c (remove_raw_frame frame_sequence c).0
unfolding remove_raw_frame
remove_raw_frame-Effect frame_sequence c = ground arith

pub acknowledge_raw_frame_durable-Effect :
    (frame_sequence : ℕ) (c : Cell) → Effect c (acknowledge_raw_frame_durable frame_sequence c).0
unfolding acknowledge_raw_frame_durable
acknowledge_raw_frame_durable-Effect frame_sequence c =
    ground
      (arith, lock-cases c, publish_poisoned-Effect c, remove_raw_frame-Effect frame_sequence c)
