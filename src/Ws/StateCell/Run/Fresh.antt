-- ===== src/Ws/StateCell/Run/Fresh.antt =====
-- auth/ws/state_cell.rs: the numbers that the cell hands out.
use rspm.Common.{
  ap, if_elim, ℕ, suc, ◌+◌, ◌≤◌, ◌<◌, ◌≡◌, inl, inr, false, some, none, Option, refl, ◌==◌, arith,
  u64_max,
}
use rspm.Ws.State.{WsState, is_ready, CounterExhaustion}
use rspm.Ws.StateCell.{Cell, TransportSequenceRange, publish_poisoned, fail_counter, update-cases}
use rspm.Ws.StateCell.Marks.{
  ConnectResult, ok, set_connected, set_transport_sequences, try_mark_connected,
  reserve_transport_sequences,
}
use rspm.Ws.StateCell.RawFrames.{set_raw_frame_sequence, reserve_raw_frame_sequence}
use rspm.Ws.StateCell.Invariant.{IsValid}
use rspm.Ws.StateCell.Run.{
  perform, Reach, connected, reserves_transport_sequences, reserves_frame_sequence,
}
use rspm.Ws.StateCell.Run.Calls.{perform-Keeps}
use rspm.Ws.StateCell.Run.Safety.{Reach-KeepsProgress}

set_transport_sequences-some :
    (event_count : ℕ) (s : WsState) (range : TransportSequenceRange)
    → (set_transport_sequences event_count s).1 ≡ some range
    → (range.first ≡ suc s.transport_sequence)
      × (range.last ≡ s.transport_sequence + event_count)
      × (range.last ≤ u64_max)
      × ((set_transport_sequences event_count s).0 ≡ record s { transport_sequence = range.last })
unfolding set_transport_sequences
set_transport_sequences-some event_count s range h = ground arith

-- What a reservation promises.
abbrev Reserves : ℕ → Cell → Cell × Option TransportSequenceRange → Type 0
Reserves event_count c r =
    (range : TransportSequenceRange)
    → r.1 ≡ some range
    → (0 < event_count)
      × (range.first ≡ suc c.state.transport_sequence)
      × (range.last ≡ c.state.transport_sequence + event_count)
      × (range.last ≤ u64_max)
      × (r.0.state ≡ record c.state { transport_sequence = range.last })

reserve_transport_sequences-Reserves :
    (event_count : ℕ) (c : Cell)
    → Reserves event_count c (reserve_transport_sequences event_count c)
unfolding reserve_transport_sequences
reserve_transport_sequences-Reserves event_count c =
    elim (update-cases none (set_transport_sequences event_count) c) [
      | inl e ↦ rw e (
          if_elim (Reserves event_count c) (event_count == 0) (λ _ range h. absurd (ground arith))
            (λ _ range h. absurd (ground arith)))
      | inr (e, _, _) ↦ rw e (
          if_elim (Reserves event_count c) (event_count == 0) (λ _ range h. absurd (ground arith))
            (λ some_events range h.
              let (first, last, fits, after) =
                set_transport_sequences-some event_count c.state range h in
              (ground arith, first, last, fits, after)))
    ]

-- A reservation that succeeds hands out exactly the next `event_count` sequences, of which there
-- is one at least, moves the transport frontier to the last of them and changes nothing else of
-- the state.
pub reserve_transport_sequences_next :
    (event_count : ℕ) (c : Cell) (range : TransportSequenceRange)
    → (reserve_transport_sequences event_count c).1 ≡ some range
    → (0 < event_count)
      × (range.first ≡ suc c.state.transport_sequence)
      × (range.last ≡ c.state.transport_sequence + event_count)
      × (range.last ≤ u64_max)
      × ((reserve_transport_sequences event_count c).0.state
          ≡ record c.state { transport_sequence = range.last })
reserve_transport_sequences_next event_count c range h =
    reserve_transport_sequences-Reserves event_count c range h

-- Ranges that are reserved one after the other, with any history between, do not overlap, and the
-- later one stands above.
pub reserved_ranges_disjoint :
    {c d : Cell} (event_count later_count : ℕ) (range later : TransportSequenceRange)
    → IsValid c
    → (reserve_transport_sequences event_count c).1 ≡ some range
    → Reach (reserve_transport_sequences event_count c).0 d
    → (reserve_transport_sequences later_count d).1 ≡ some later
    → range.last < later.first
unfolding perform
reserved_ranges_disjoint {c} {d} event_count later_count range later v h r k =
    let (_, _, _, _, moved) = reserve_transport_sequences-Reserves event_count c range h in
    let (_, first, _, _, _) = reserve_transport_sequences-Reserves later_count d later k in
    let (w, _) = perform-Keeps (reserves_transport_sequences event_count) c v in
    let (_, p) = Reach-KeepsProgress r w in
    ground (arith, ap (λ s. s.transport_sequence) moved, p.transport_le)

set_transport_sequences_past :
    (event_count : ℕ) (s : WsState)
    → 0 < event_count
    → u64_max < s.transport_sequence + event_count
    → set_transport_sequences event_count s
      ≡ (fail_counter s CounterExhaustion.transport_sequence, none)
unfolding set_transport_sequences
set_transport_sequences_past event_count s pos over = ground arith

-- The failed reservation.
abbrev FailsClosed : Cell × Option TransportSequenceRange → Type 0
FailsClosed r = (r.1 ≡ none) × (is_ready r.0.state ≡ false)

poisoned_unready : (c : Cell) → is_ready (publish_poisoned c).state ≡ false
unfolding publish_poisoned is_ready
poisoned_unready c = ground arith

failed_unready : (s : WsState) (e : CounterExhaustion) → is_ready (fail_counter s e) ≡ false
unfolding fail_counter is_ready
failed_unready s e = ground arith

-- A reservation past the largest 64-bit number hands out nothing, and leaves a channel that is not
-- ready.
pub reserve_past_end_fails_closed :
    (event_count : ℕ) (c : Cell)
    → 0 < event_count
    → u64_max < c.state.transport_sequence + event_count
    → ((reserve_transport_sequences event_count c).1 ≡ none)
      × (is_ready (reserve_transport_sequences event_count c).0.state ≡ false)
unfolding reserve_transport_sequences
reserve_past_end_fails_closed event_count c pos over =
    elim (update-cases none (set_transport_sequences event_count) c) [
      | inl e ↦ rw e (
          if_elim FailsClosed (event_count == 0) (λ empty. absurd (ground arith))
            (λ _. (refl, poisoned_unready c)))
      | inr (e, _, _) ↦
          rw (e, set_transport_sequences_past event_count c.state pos over)
            (if_elim FailsClosed (event_count == 0) (λ empty. absurd (ground arith))
              (λ _. (refl, failed_unready c.state _)))
    ]

set_connected_ok :
    (s : WsState) (generation : ℕ)
    → (set_connected s).1 ≡ some (ok generation)
    → (generation ≡ suc s.generation) × ((set_connected s).0.generation ≡ generation)
unfolding set_connected
set_connected_ok s generation h = ground arith

abbrev Connects : Cell → Cell × ConnectResult → Type 0
Connects c r =
    (generation : ℕ)
    → r.1 ≡ ok generation
    → (generation ≡ suc c.state.generation) × (r.0.state.generation ≡ generation)

try_mark_connected-Connects : (c : Cell) → Connects c (try_mark_connected c)
unfolding try_mark_connected
try_mark_connected-Connects c = elim (update-cases none set_connected c) [
  | inl e ↦ rw e (λ generation h. absurd (ground arith))
  | inr (e, _, _) ↦ rw e (λ generation h. set_connected_ok c.state generation (ground arith))
]

set_raw_frame_sequence-some :
    (s : WsState) (sequence : ℕ)
    → (set_raw_frame_sequence s).1 ≡ some sequence
    → (sequence ≡ suc s.raw_frame_sequence)
      × ((set_raw_frame_sequence s).0.raw_frame_sequence ≡ sequence)
unfolding set_raw_frame_sequence
set_raw_frame_sequence-some s sequence h = ground arith

abbrev Numbers : Cell → Cell × Option ℕ → Type 0
Numbers c r =
    (sequence : ℕ)
    → r.1 ≡ some sequence
    → (sequence ≡ suc c.state.raw_frame_sequence) × (r.0.state.raw_frame_sequence ≡ sequence)

reserve_raw_frame_sequence-Numbers : (c : Cell) → Numbers c (reserve_raw_frame_sequence c)
unfolding reserve_raw_frame_sequence
reserve_raw_frame_sequence-Numbers c = elim (update-cases none set_raw_frame_sequence c) [
  | inl e ↦ rw e (λ sequence h. absurd (ground arith))
  | inr (e, _, _) ↦ rw e (λ sequence h. set_raw_frame_sequence-some c.state sequence h)
]

-- Two sockets of one history from a well-formed cell never share a generation: the later one is
-- above the earlier one.
pub generations_distinct :
    (c : Cell) {d : Cell} (generation later : ℕ)
    → IsValid c
    → (try_mark_connected c).1 ≡ ok generation
    → Reach (try_mark_connected c).0 d
    → (try_mark_connected d).1 ≡ ok later
    → generation < later
unfolding perform
generations_distinct c {d} generation later v h r k =
    let (_, at) = try_mark_connected-Connects c generation h in
    let (next_generation, _) = try_mark_connected-Connects d later k in
    let (w, _) = perform-Keeps connected c v in
    let (_, p) = Reach-KeepsProgress r w in ground (arith, p.generation_le)

-- Two frames of one history from a well-formed cell never share a sequence: the later one is above
-- the earlier one.
pub frame_sequences_distinct :
    (c : Cell) {d : Cell} (frame later : ℕ)
    → IsValid c
    → (reserve_raw_frame_sequence c).1 ≡ some frame
    → Reach (reserve_raw_frame_sequence c).0 d
    → (reserve_raw_frame_sequence d).1 ≡ some later
    → frame < later
unfolding perform
frame_sequences_distinct c {d} frame later v h r k =
    let (_, at) = reserve_raw_frame_sequence-Numbers c frame h in
    let (next_frame, _) = reserve_raw_frame_sequence-Numbers d later k in
    let (w, _) = perform-Keeps reserves_frame_sequence c v in
    let (_, p) = Reach-KeepsProgress r w in ground (arith, p.raw_frame_le)
