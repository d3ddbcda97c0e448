-- ===== src/Ws/StateCell/Examples/Deliveries.antt =====
-- Reservations, acknowledgements, drops and retained frames on concrete cells.
use rspm.Common.{ℕ, ◌<◌, ◌≤◌, ◌≡◌, refl, true, some, none, [], ◌∷◌, ◌||◌, ◌==◌, arith, subst}
use rspm.Common.OrderedSet.{contains, insert, remove}
use rspm.Common.OrderedMap.{lookup, insert as insert_entry}
use rspm.Ws.Frame.{RawFrame, text}
use rspm.Ws.StateCell.{Cell, TransportSequenceRange, update, lock}
use rspm.Ws.StateCell.Marks.{
  ok, try_mark_connected, reserve_transport_sequences, set_connected, set_transport_sequences,
}
use rspm.Ws.StateCell.RawFrames.{
  set_raw_frame_sequence, reserve_raw_frame_sequence, retain_raw_frame, insert_raw_frame,
  set_retained, acknowledge_raw_frame_durable, remove_raw_frame,
}
use rspm.Ws.StateCell.Ledger.{
  acknowledge_durable, insert_durable, write_advanced, advance_durable, mark_dropped, drop_range,
  push_range, extend_last, range_is_reserved,
}
use rspm.Ws.StateCell.Invariant.{IsValid}
use rspm.Ws.StateCell.Run.{perform, Reach, retains}
use rspm.Ws.StateCell.Run.Safety.{Reach-KeepsProgress}
use rspm.Ws.StateCell.Run.Fresh.{reserved_ranges_disjoint}
use rspm.Ws.StateCell.Delivery.{
  is_acknowledged, acknowledge_durable_adds, acknowledge_all, acknowledgement_order,
}
use rspm.Ws.StateCell.Examples.{live_state, cell_of, live, live-IsValid}

test_reserve : (reserve_transport_sequences 3 live).1 ≡ some (record { first = 3; last = 5 })
unfolding reserve_transport_sequences update lock set_transport_sequences
test_reserve = refl

abbrev reserved : Cell
reserved = cell_of (record live_state { transport_sequence = 5 }) []

test_reserved : (reserve_transport_sequences 3 live).0 ≡ reserved
unfolding reserve_transport_sequences update lock set_transport_sequences
test_reserved = refl

test_reserve_again :
    (reserve_transport_sequences 1 reserved).1 ≡ some (record { first = 6; last = 6 })
unfolding reserve_transport_sequences update lock set_transport_sequences
test_reserve_again = refl

reserved_ranges_disjoint_example : 5 < 6
reserved_ranges_disjoint_example =
    reserved_ranges_disjoint 3 1 (record { first = 3; last = 5 }) (record { first = 6; last = 6 })
      live-IsValid test_reserve
      (subst (Reach (reserve_transport_sequences 3 live).0) test_reserved (Reach.here _))
      test_reserve_again

test_generation : (try_mark_connected live).1 ≡ ok 2
unfolding try_mark_connected update lock set_connected
test_generation = refl

test_next_generation : (try_mark_connected (try_mark_connected live).0).1 ≡ ok 3
unfolding try_mark_connected update lock set_connected
test_next_generation = refl

test_frame : (reserve_raw_frame_sequence live).1 ≡ some 1
unfolding reserve_raw_frame_sequence update lock set_raw_frame_sequence
test_frame = refl

test_next_frame : (reserve_raw_frame_sequence (reserve_raw_frame_sequence live).0).1 ≡ some 2
unfolding reserve_raw_frame_sequence update lock set_raw_frame_sequence
test_next_frame = refl

test_acknowledge : (acknowledge_durable 2 live).1 ≡ true
unfolding acknowledge_durable lock insert_durable write_advanced advance_durable insert
test_acknowledge = refl

acknowledge_durable_adds_example :
    (0 < 2)
    × (2 ≤ 2)
    × (is_acknowledged 1 (acknowledge_durable 2 live).0 ≡ (is_acknowledged 1 live || 1 == 2))
acknowledge_durable_adds_example =
    acknowledge_durable_adds 2 live 1 live-IsValid (omega arith) test_acknowledge

test_up : (acknowledge_all (1 ∷ 2 ∷ []) live).1 ≡ true
unfolding acknowledge_durable lock insert_durable write_advanced advance_durable insert remove
test_up = refl

test_down : (acknowledge_all (2 ∷ 1 ∷ []) live).1 ≡ true
unfolding acknowledge_durable lock insert_durable write_advanced advance_durable insert remove
test_down = refl

test_same : (z : ℕ) → contains z (1 ∷ 2 ∷ []) ≡ contains z (2 ∷ 1 ∷ [])
test_same z = ground arith

acknowledgement_order_example :
    is_acknowledged 2 (acknowledge_all (1 ∷ 2 ∷ []) live).0
    ≡ is_acknowledged 2 (acknowledge_all (2 ∷ 1 ∷ []) live).0
acknowledgement_order_example =
    acknowledgement_order (1 ∷ 2 ∷ []) (2 ∷ 1 ∷ []) live live-IsValid test_same test_up test_down 2
      (omega arith)

abbrev range : TransportSequenceRange
range = record { first = 1; last = 2 }

test_drop : (mark_dropped range live).1 ≡ true
unfolding mark_dropped lock range_is_reserved drop_range push_range extend_last
test_drop = refl

abbrev frame : RawFrame
frame = record {
  frame_sequence = 1;
  first_transport_sequence = 1;
  last_transport_sequence = 2;
  socket_generation = 1;
  socket_gap_version = 1;
  receipt = record { process_generation = 5; wall_time_ns = 6; monotonic_ns = 7 };
  encoding = text;
  gap = none;
  bytes = 91 ∷ 93 ∷ [];
}

test_retain : (retain_raw_frame frame live).1 ≡ true
unfolding retain_raw_frame lock insert_raw_frame lookup
test_retain = refl

abbrev holding : Cell
holding = (retain_raw_frame frame live).0

holding-IsValid : IsValid holding
unfolding perform
holding-IsValid =
    (Reach-KeepsProgress (Reach.next (Reach.here live) (retains frame)) live-IsValid).0

test_remove : (acknowledge_raw_frame_durable 1 holding).1 ≡ true
unfolding acknowledge_raw_frame_durable remove_raw_frame lock retain_raw_frame insert_raw_frame
    lookup insert_entry set_retained
test_remove = refl
