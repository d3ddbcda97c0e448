-- ===== src/Ws/StateCell/Invariant/Operations.antt =====
-- auth/ws/state_cell: well-formedness under each operation but the commit.
use rspm.Common.{
  ℕ, zero, suc, ◌<◌, ◌≡◌, refl, inl, inr, Bool, none, ap, arith, length, ◌==◌, if_elim, is_none,
}
use rspm.Common.OrderedMap.{lookup, insert-Keyed, remove-Keyed, insert as insert_entry}
use rspm.Ws.State.{WsState, CredentialIdentity, CredentialAuthority, RecoveryToken}
use rspm.Ws.Frame.{RawFrame}
use rspm.Ws.StateCell.{
  Cell, new_with_identity, publish, publish_poisoned, lock-cases, update-cases, update,
  update_state, snapshot,
}
use rspm.Ws.StateCell.Marks.{
  set_connected, set_authenticated_rest_proven, set_evidence_gap, set_transport_sequences,
  mark_evidence_gap, try_mark_connected, mark_authenticated_rest_proven,
  reserve_transport_sequences,
}
use rspm.Ws.StateCell.RawFrames.{
  release_permit, set_raw_frame_sequence, set_retained, reserve_raw_frame_sequence,
  retain_raw_frame, insert_raw_frame, pending_raw_frames, acknowledge_raw_frame_durable,
  remove_raw_frame,
}
use rspm.Ws.StateCell.Coverage.{RangesWithin, RangesWithin-mono}
use rspm.Ws.StateCell.Progress.{Marked}
use rspm.Ws.StateCell.Progress.Closures.{
  set_connected-Marked, set_authenticated_rest_proven-Marked, set_evidence_gap-Marked,
  set_transport_sequences-Marked, set_raw_frame_sequence-Marked,
}
use rspm.Ws.StateCell.Invariant.{IsValidState, IsValid}
use rspm.Ws.StateCell.Invariant.Closures.{
  set_connected-IsValidState, set_authenticated_rest_proven-IsValidState,
  set_evidence_gap-IsValidState, set_transport_sequences-IsValidState,
  set_raw_frame_sequence-IsValidState,
}

-- The cell of a result is well formed.
abbrev pub ValidFirst : Cell × Bool → Type 0
ValidFirst r = IsValid r.0

pub new_with_identity-IsValid :
    (identity : CredentialIdentity) → IsValid (new_with_identity identity)
unfolding new_with_identity
new_with_identity-IsValid identity = ground arith

pub publish_poisoned-IsValid : (c : Cell) → IsValid c → IsValid (publish_poisoned c)
unfolding publish_poisoned
publish_poisoned-IsValid c v = ground arith

-- A write of a marked and well-formed state, published.
pub Marked-IsValid :
    (c : Cell) (s : WsState)
    → IsValid c
    → Marked c.state s
    → IsValidState s
    → IsValid (publish (record c { state = s }))
Marked-IsValid c s v m w = record {
  valid_state = w;
  ascending = v.ascending;
  set_capped = v.set_capped;
  ranges =
      RangesWithin-mono 1 1 s.transport_sequence c.state.transport_sequence c.dropped_ranges
        (omega arith) m.transport_le v.ranges;
  ranges_capped = v.ranges_capped;
  keyed = v.keyed;
  counted = omega (arith, m.pending_same, v.counted);
  poison_agrees = ground (arith, m.poison_same, v.poison_agrees);
  published = refl;
}

pub update-IsValid :
    {A : Type 0} (captured : A) (closure : WsState → WsState × A) (c : Cell)
    → IsValid c
    → Marked c.state (closure c.state).0
    → IsValidState (closure c.state).0
    → IsValid (update captured closure c).0
update-IsValid captured closure c v m w = elim (update-cases captured closure c) [
  | inl e ↦ rw e (publish_poisoned-IsValid c v)
  | inr (e, _, _) ↦ rw e (Marked-IsValid c (closure c.state).0 v m w)
]

pub update_state-IsValid :
    (closure : WsState → WsState) (c : Cell)
    → IsValid c
    → Marked c.state (closure c.state)
    → IsValidState (closure c.state)
    → IsValid (update_state closure c)
unfolding update_state
update_state-IsValid closure c v m w = update-IsValid tt (λ s. (closure s, tt)) c v m w

pub snapshot-IsValid : (c : Cell) → IsValid c → IsValid (snapshot c).0
unfolding snapshot
snapshot-IsValid c v = ground (arith, publish_poisoned-IsValid c)

pub try_mark_connected-IsValid : (c : Cell) → IsValid c → IsValid (try_mark_connected c).0
unfolding try_mark_connected
try_mark_connected-IsValid c v =
    update-IsValid _ set_connected c v (set_connected-Marked c.state)
      (set_connected-IsValidState c.state v.valid_state)

pub mark_authenticated_rest_proven-IsValid :
    (token : RecoveryToken) (authority : CredentialAuthority) (c : Cell)
    → IsValid c
    → IsValid (mark_authenticated_rest_proven token authority c).0
unfolding mark_authenticated_rest_proven
mark_authenticated_rest_proven-IsValid token authority c v =
    update-IsValid _ (set_authenticated_rest_proven token authority) c v
      (set_authenticated_rest_proven-Marked token authority c.state)
      (set_authenticated_rest_proven-IsValidState token authority c.state v.valid_state)

pub reserve_transport_sequences-IsValid :
    (event_count : ℕ) (c : Cell) → IsValid c → IsValid (reserve_transport_sequences event_count c).0
unfolding reserve_transport_sequences
reserve_transport_sequences-IsValid zero c v = v
reserve_transport_sequences-IsValid (suc n) c v = ground (
  arith,
  update-IsValid none (set_transport_sequences (suc n)) c v
      (set_transport_sequences-Marked (suc n) c.state)
      (set_transport_sequences-IsValidState (suc n) c.state v.valid_state),
)

pub reserve_raw_frame_sequence-IsValid :
    (c : Cell) → IsValid c → IsValid (reserve_raw_frame_sequence c).0
unfolding reserve_raw_frame_sequence
reserve_raw_frame_sequence-IsValid c v =
    update-IsValid _ set_raw_frame_sequence c v (set_raw_frame_sequence-Marked c.state)
      (set_raw_frame_sequence-IsValidState c.state v.valid_state)

pub pending_raw_frames-IsValid : (c : Cell) → IsValid c → IsValid (pending_raw_frames c).0
unfolding pending_raw_frames
pending_raw_frames-IsValid c v = ground (arith, publish_poisoned-IsValid c)

set_retained-IsValidState :
    (count : ℕ) (inserted : Bool) (s : WsState)
    → IsValidState s
    → IsValidState (set_retained count inserted s)
unfolding set_retained
set_retained-IsValidState count inserted s v = ground arith

-- What `set_retained` leaves alone.
set_retained_same :
    (count : ℕ) (inserted : Bool) (s : WsState)
    → let t = set_retained count inserted s in
      (t.pending_raw_frame_count ≡ count)
      × (t.authority_poisoned ≡ s.authority_poisoned)
      × (t.transport_sequence ≡ s.transport_sequence)
unfolding set_retained
set_retained_same count inserted s = ground arith

pub insert_raw_frame-IsValid :
    (evidence : RawFrame) (c : Cell)
    → IsValid c
    → 0 < evidence.frame_sequence
    → IsValid (insert_raw_frame evidence c).0
unfolding insert_raw_frame
insert_raw_frame-IsValid evidence c v pos =
    let frames = insert_entry evidence.frame_sequence evidence c.raw_frames in
    let inserted = is_none (lookup evidence.frame_sequence c.raw_frames) in
    ground (
      arith,
      set_retained-IsValidState (length frames) inserted c.state v.valid_state,
      set_retained_same (length frames) inserted c.state,
      insert-Keyed evidence.frame_sequence 1 evidence c.raw_frames,
      ap (λ n. RangesWithin 1 n c.dropped_ranges)
          (set_retained_same (length frames) inserted c.state).2,
    )

remove_raw_frame-IsValid :
    (frame_sequence : ℕ) (c : Cell) → IsValid c → IsValid (remove_raw_frame frame_sequence c).0
unfolding remove_raw_frame
remove_raw_frame-IsValid frame_sequence c v =
    ground (arith, remove-Keyed frame_sequence 1 c.raw_frames v.keyed)

pub mark_evidence_gap-IsValid : (c : Cell) → IsValid c → IsValid (mark_evidence_gap c)
unfolding mark_evidence_gap
mark_evidence_gap-IsValid c v =
    update_state-IsValid set_evidence_gap c v (set_evidence_gap-Marked c.state)
      (set_evidence_gap-IsValidState c.state v.valid_state)

-- The capacity of the semaphore is no part of the invariant.
IsValid-release_permit : (c : Cell) → IsValid c → IsValid (release_permit c)
IsValid-release_permit c v = ground arith

pub retain_raw_frame-IsValid :
    (evidence : RawFrame) (c : Cell) → IsValid c → IsValid (retain_raw_frame evidence c).0
unfolding retain_raw_frame
retain_raw_frame-IsValid evidence c v =
    if_elim ValidFirst (evidence.frame_sequence == 0)
      (λ _. IsValid-release_permit _ (mark_evidence_gap-IsValid c v))
      (λ positive. elim (lock-cases c) [
        | inl e ↦ rw e (IsValid-release_permit _ (publish_poisoned-IsValid c v))
        | inr (e, _, _) ↦ rw e (
            if_elim ValidFirst c.raw_frames_mutex
              (λ _. IsValid-release_permit _ (publish_poisoned-IsValid c v))
              (λ _. insert_raw_frame-IsValid evidence c v (ground arith)))
      ])

pub acknowledge_raw_frame_durable-IsValid :
    (frame_sequence : ℕ) (c : Cell)
    → IsValid c
    → IsValid (acknowledge_raw_frame_durable frame_sequence c).0
unfolding acknowledge_raw_frame_durable
acknowledge_raw_frame_durable-IsValid frame_sequence c v = elim (lock-cases c) [
  | inl e ↦ rw e (publish_poisoned-IsValid c v)
  | inr (e, _, _) ↦ rw e (
      if_elim ValidFirst c.raw_frames_mutex (λ _. publish_poisoned-IsValid c v)
        (λ _. remove_raw_frame-IsValid frame_sequence c v))
]
