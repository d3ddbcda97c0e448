-- ===== src/Ws/StateCell/Progress.antt =====
-- auth/ws/state_cell.rs: the monotone counters and the sticky flags.
pub mod Closures
pub mod Operations
use rspm.Common.{◌≤◌, ◌≡◌, ◌⊎◌, true, none, arith}
use rspm.Ws.State.{WsState}

-- Counters never fall; a closed consumer, a poisoned authority and an exhausted counter stay so.
pub record Progress (s t : WsState) : Type 0 where
  pub identity_same : t.credential_identity ≡ s.credential_identity
  pub generation_le : s.generation ≤ t.generation
  pub liveness_le : s.liveness_version ≤ t.liveness_version
  pub gap_version_le : s.gap_version ≤ t.gap_version
  pub transport_le : s.transport_sequence ≤ t.transport_sequence
  pub enqueued_le : s.enqueued_sequence ≤ t.enqueued_sequence
  pub durable_le : s.durable_sequence ≤ t.durable_sequence
  pub raw_frame_le : s.raw_frame_sequence ≤ t.raw_frame_sequence
  pub closed_kept : s.consumer_closed ≡ true → t.consumer_closed ≡ true
  pub poison_kept : s.authority_poisoned ≡ true → t.authority_poisoned ≡ true
  pub exhaustion_kept :
      (s.counter_exhaustion ≡ none) ⊎ (t.counter_exhaustion ≡ s.counter_exhaustion)

-- What only a committed catch-up undoes.
pub record Unrecovered (s t : WsState) : Type 0 where
  pub schema_kept : s.schema_gap ≡ true → t.schema_gap ≡ true
  pub delivery_kept : s.delivery_gap ≡ true → t.delivery_gap ≡ true
  pub evidence_kept : s.evidence_gap ≡ true → t.evidence_gap ≡ true
  pub catch_up_kept :
      (t.catch_up_generation ≡ none) ⊎ (t.catch_up_generation ≡ s.catch_up_generation)

pub Progress-refl : (s : WsState) → Progress s s
Progress-refl s = ground arith

pub Progress-trans : {s t u : WsState} → Progress s t → Progress t u → Progress s u
Progress-trans p q = ground arith

pub Unrecovered-refl : (s : WsState) → Unrecovered s s
Unrecovered-refl s = ground arith

pub Unrecovered-trans : {s t u : WsState} → Unrecovered s t → Unrecovered t u → Unrecovered s u
Unrecovered-trans p q = ground arith

-- What every closure that `update` runs does: beside the above, the durable frontier, the count of
-- pending frames and the poison flag stay as they are.
pub record Marked (s t : WsState) : Type 0 where
  pub progress : Progress s t
  pub open progress use *
  pub unrecovered : Unrecovered s t
  pub open unrecovered use *
  pub durable_same : t.durable_sequence ≡ s.durable_sequence
  pub pending_same : t.pending_raw_frame_count ≡ s.pending_raw_frame_count
  pub poison_same : t.authority_poisoned ≡ s.authority_poisoned
