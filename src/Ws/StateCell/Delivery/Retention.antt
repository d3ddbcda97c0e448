-- ===== src/Ws/StateCell/Delivery/Retention.antt =====
-- auth/ws/state_cell/ledger.rs: the retained raw frames and their permits.
use rspm.Common.{
  ℕ, suc, ◌+◌, ◌≡◌, inl, inr, Bool, true, some, none, length, refl, ◌==◌, if_elim, if◌then◌else◌,
  arith, is_some, Option-cases,
}
use rspm.Common.OrderedMap.{lookup, lookup-insert, lookup-remove, length-insert, length-remove}
use rspm.Ws.State.{WsState}
use rspm.Ws.Frame.{RawFrame}
use rspm.Ws.StateCell.{update, Cell, publish_poisoned, lock-cases, update_state, update-cases}
use rspm.Ws.StateCell.Marks.{mark_evidence_gap, set_evidence_gap}
use rspm.Ws.StateCell.RawFrames.{
  insert_raw_frame, retain_raw_frame, remove_raw_frame, acknowledge_raw_frame_durable,
}
use rspm.Ws.StateCell.Invariant.{IsValid}

-- The permits that the semaphore and the retained frames hold.
abbrev pub permits : Cell → ℕ
permits c = c.raw_frame_capacity + length c.raw_frames

-- Retention gives the caller's permit to the frame, or back to the semaphore.
abbrev Retains : RawFrame → Cell → Cell × Bool → Type 0
Retains evidence c r =
    (permits r.0 ≡ suc (permits c))
    × (r.1 ≡ true
        → (lookup evidence.frame_sequence c.raw_frames ≡ none)
          × ((j : ℕ)
              → lookup j r.0.raw_frames
                ≡ (if j == evidence.frame_sequence then some evidence else lookup j c.raw_frames)))

-- A poisoned cell has the same frames and permits.
poisoned_permits : (c : Cell) → permits (publish_poisoned c) ≡ permits c
unfolding publish_poisoned
poisoned_permits c = ground arith

permits-update :
    {A : Type 0} (captured : A) (closure : WsState → WsState × A) (c : Cell)
    → permits (update captured closure c).0 ≡ permits c
permits-update captured closure c = elim (update-cases captured closure c) [
  | inl e ↦ rw e (poisoned_permits c)
  | inr (e, _, _) ↦ rw e refl
]

evidence_gap_permits : (c : Cell) → permits (mark_evidence_gap c) ≡ permits c
unfolding mark_evidence_gap update_state
evidence_gap_permits c = permits-update tt (λ s. (set_evidence_gap s, tt)) c

insert_raw_frame-Retains :
    (evidence : RawFrame) (c : Cell) → IsValid c → Retains evidence c (insert_raw_frame evidence c)
unfolding insert_raw_frame
insert_raw_frame-Retains evidence c v =
    let grown = length-insert evidence.frame_sequence 1 evidence c.raw_frames v.keyed in
    elim (Option-cases (lookup evidence.frame_sequence c.raw_frames)) [
      | inl fresh ↦ (
        ground (arith, fresh, grown),
        λ h. (
          fresh,
          λ j. ground (arith, fresh, lookup-insert j evidence.frame_sequence evidence c.raw_frames),
        ),
      )
      | inr (old, found) ↦ (ground (arith, found, grown), λ h. absurd (ground (arith, found)))
    ]

retain_raw_frame-Retains :
    (evidence : RawFrame) (c : Cell) → IsValid c → Retains evidence c (retain_raw_frame evidence c)
unfolding retain_raw_frame
retain_raw_frame-Retains evidence c v =
    let P : Cell × Bool → Type 0 = Retains evidence c in
    elim (lock-cases c) [
      | inl e ↦ rw e (
          if_elim P (evidence.frame_sequence == 0)
            (λ _. (ground (arith, evidence_gap_permits c), λ h. absurd (ground arith)))
            (λ _. (ground (arith, poisoned_permits c), λ h. absurd (ground arith))))
      | inr (e, _, _) ↦ rw e (
          if_elim P (evidence.frame_sequence == 0)
            (λ _. (ground (arith, evidence_gap_permits c), λ h. absurd (ground arith)))
            (λ _.
              if_elim P c.raw_frames_mutex
                (λ _. (ground (arith, poisoned_permits c), λ h. absurd (ground arith)))
                (λ _. insert_raw_frame-Retains evidence c v)))
    ]

-- Retention on a well-formed cell keeps the permits in all on every branch: the caller's permit goes
-- to the frame or back to the semaphore.
pub permits-retain_raw_frame :
    (evidence : RawFrame) (c : Cell)
    → IsValid c
    → permits (retain_raw_frame evidence c).0 ≡ suc (permits c)
permits-retain_raw_frame evidence c v = (retain_raw_frame-Retains evidence c v).0

-- Where retention on a well-formed cell succeeds, the frame is new, is on record under its sequence,
-- and every other frame stays as it was.
pub retain_raw_frame_adds :
    (evidence : RawFrame) (c : Cell)
    → IsValid c
    → (retain_raw_frame evidence c).1 ≡ true
    → (lookup evidence.frame_sequence c.raw_frames ≡ none)
      × ((j : ℕ)
          → lookup j (retain_raw_frame evidence c).0.raw_frames
            ≡ (if j == evidence.frame_sequence then some evidence else lookup j c.raw_frames))
retain_raw_frame_adds evidence c v h = (retain_raw_frame-Retains evidence c v).1 h

-- The acknowledgement of a frame removes it alone.
abbrev Releases : ℕ → Cell → Cell × Bool → Type 0
Releases frame_sequence c r =
    (permits r.0 ≡ permits c)
    × (r.1 ≡ true
        → (is_some (lookup frame_sequence c.raw_frames) ≡ true)
          × ((j : ℕ)
              → lookup j r.0.raw_frames
                ≡ (if j == frame_sequence then none else lookup j c.raw_frames)))

remove_raw_frame-Releases :
    (frame_sequence : ℕ) (c : Cell)
    → IsValid c
    → Releases frame_sequence c (remove_raw_frame frame_sequence c)
unfolding remove_raw_frame
remove_raw_frame-Releases frame_sequence c v =
    elim (Option-cases (lookup frame_sequence c.raw_frames)) [
      | inl absent ↦ (ground (arith, absent), λ h. absurd (ground (arith, absent)))
      | inr (old, found) ↦ (
        ground (arith, found, length-remove frame_sequence c.raw_frames),
        λ h. (
          ground (arith, found),
          λ j. ground (arith, found, lookup-remove j frame_sequence 1 c.raw_frames v.keyed),
        ),
      )
    ]

acknowledge_raw_frame_durable-Releases :
    (frame_sequence : ℕ) (c : Cell)
    → IsValid c
    → Releases frame_sequence c (acknowledge_raw_frame_durable frame_sequence c)
unfolding acknowledge_raw_frame_durable
acknowledge_raw_frame_durable-Releases frame_sequence c v =
    let P : Cell × Bool → Type 0 = Releases frame_sequence c in
    elim (lock-cases c) [
      | inl e ↦ rw e (poisoned_permits c, λ h. absurd (ground arith))
      | inr (e, _, _) ↦ rw e (
          if_elim P c.raw_frames_mutex (λ _. (poisoned_permits c, λ h. absurd (ground arith)))
            (λ _. remove_raw_frame-Releases frame_sequence c v))
    ]

-- The acknowledgement of a frame on a well-formed cell keeps the permits in all on every branch: a
-- frame that goes gives its permit back.
pub permits-acknowledge_raw_frame_durable :
    (frame_sequence : ℕ) (c : Cell)
    → IsValid c
    → permits (acknowledge_raw_frame_durable frame_sequence c).0 ≡ permits c
permits-acknowledge_raw_frame_durable frame_sequence c v =
    (acknowledge_raw_frame_durable-Releases frame_sequence c v).0

-- Where the acknowledgement of a frame on a well-formed cell succeeds, the frame was on record, is
-- no longer, and every other frame stays as it was.
pub acknowledge_raw_frame_durable_removes :
    (frame_sequence : ℕ) (c : Cell)
    → IsValid c
    → (acknowledge_raw_frame_durable frame_sequence c).1 ≡ true
    → (is_some (lookup frame_sequence c.raw_frames) ≡ true)
      × ((j : ℕ)
          → lookup j (acknowledge_raw_frame_durable frame_sequence c).0.raw_frames
            ≡ (if j == frame_sequence then none else lookup j c.raw_frames))
acknowledge_raw_frame_durable_removes frame_sequence c v h =
    (acknowledge_raw_frame_durable-Releases frame_sequence c v).1 h
