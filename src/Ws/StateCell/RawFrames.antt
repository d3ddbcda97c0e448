-- ===== src/Ws/StateCell/RawFrames.antt =====
-- auth/ws/state_cell/ledger.rs: raw-frame retention. A permit of the semaphore is held by the caller
-- between its reservation and `retain_raw_frame`.
use rspm.Common.{
  ℕ, zero, suc, Bool, true, false, not, ◌||◌, Option, none, some, List, map, length, ◌==◌,
  if◌then◌else◌, checked_add, is_some, is_none,
}
use rspm.Common.OrderedMap.{lookup, insert as insert_entry, remove as remove_entry}
use rspm.Ws.State.{WsState, CounterExhaustion}
use rspm.Ws.Frame.{RawFrame}
use rspm.Ws.StateCell.{
  Cell, fail_counter, advance_gap_version, publish, publish_poisoned, lock, update,
}
use rspm.Ws.StateCell.Marks.{mark_evidence_gap}

-- Takes a permit; `none` is a wait.
unfoldable pub reserve_raw_frame_capacity : Cell → Option Cell
reserve_raw_frame_capacity c = elim c.raw_frame_capacity [
  | zero ↦ none
  | suc rest ↦ some (record c { raw_frame_capacity = rest })
]

-- A dropped permit returns to the semaphore.
abbrev pub release_permit : Cell → Cell
release_permit c = record c { raw_frame_capacity = suc c.raw_frame_capacity }

unfoldable pub set_raw_frame_sequence : WsState → WsState × Option ℕ
unfolding fail_counter
set_raw_frame_sequence s = elim (checked_add s.raw_frame_sequence 1) [
  | none ↦ (fail_counter s CounterExhaustion.raw_frame_sequence, none)
  | some next ↦ (record s { raw_frame_sequence = next }, some next)
]

unfoldable pub reserve_raw_frame_sequence : Cell → Cell × Option ℕ
reserve_raw_frame_sequence c =
    let (c', updated, sequence) = update none set_raw_frame_sequence c in
    (c', if updated then sequence else none)

-- The state after an insertion that left `count` frames.
unfoldable pub set_retained : ℕ → Bool → WsState → WsState
unfolding advance_gap_version
set_retained count inserted s =
    let counted = record s { pending_raw_frame_count = count } in
    if inserted then counted else (advance_gap_version (record counted { evidence_gap = true })).0

-- The insertion under both locks; a frame that is replaced releases its permit.
unfoldable pub insert_raw_frame : RawFrame → Cell → Cell × Bool
insert_raw_frame evidence c =
    let inserted = is_none (lookup evidence.frame_sequence c.raw_frames) in
    let frames = insert_entry evidence.frame_sequence evidence c.raw_frames in
    let written = record c {
      raw_frames = frames;
      state = set_retained (length frames) inserted c.state;
    } in
    (publish (if inserted then written else release_permit written), inserted)

unfoldable pub retain_raw_frame : RawFrame → Cell → Cell × Bool
retain_raw_frame evidence c =
    let (locked, granted) = lock c in
    if evidence.frame_sequence == 0
    then (release_permit (mark_evidence_gap c), false)
    else if not granted
    then (release_permit locked, false)
    else if locked.raw_frames_mutex
    then (release_permit (publish_poisoned locked), false)
    else insert_raw_frame evidence locked

unfoldable pub pending_raw_frames : Cell → Cell × List RawFrame
pending_raw_frames c =
    let pending = map (λ (entry : ℕ × RawFrame). entry.1) c.raw_frames in
    (if c.raw_frames_mutex || c.authority_poisoned then publish_poisoned c else c, pending)

-- The removal under both locks.
unfoldable pub remove_raw_frame : ℕ → Cell → Cell × Bool
remove_raw_frame frame_sequence c =
    let removed = is_some (lookup frame_sequence c.raw_frames) in
    let frames = remove_entry frame_sequence c.raw_frames in
    let counted = record c.state { pending_raw_frame_count = length frames } in
    let written = release_permit (record c { raw_frames = frames; state = counted }) in
    (publish (if removed then written else c), removed)

unfoldable pub acknowledge_raw_frame_durable : ℕ → Cell → Cell × Bool
acknowledge_raw_frame_durable frame_sequence c =
    let (locked, granted) = lock c in
    if not granted
    then (locked, false)
    else if locked.raw_frames_mutex
    then (publish_poisoned locked, false)
    else remove_raw_frame frame_sequence locked
