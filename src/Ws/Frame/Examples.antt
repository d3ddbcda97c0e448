-- ===== src/Ws/Frame/Examples.antt =====
-- Frames of numbers: a byte below 100 is a wire event, one below 10 converts.
use rspm.Common.{ℕ, suc, ◌≡◌, refl, some, none, Option, List, [], ◌∷◌, ltb, ◌==◌, if◌then◌else◌}
use rspm.Ws.Frame.{
  FrameReceipt, RawFrame, EventBatch, default_batch, raw_evidence, sequence_width,
  with_transport_context, into_sequenced_events, decode_frame,
}
use rspm.Ws.Frame.Laws.{numbered, reserved_frame_is_sequenced}
use rspm.Ws.StateCell.{TransportSequenceRange, new_with_identity, update, lock}
use rspm.Ws.StateCell.Marks.{reserve_transport_sequences, set_transport_sequences}

-- A frame is read as the list of its bytes, if the first is 91.
abbrev deserialize : List ℕ → Option (List ℕ)
deserialize (opening ∷ bytes) = if opening == 91 then some bytes else none
deserialize _ = none

abbrev try_from : ℕ → Option ℕ
try_from w = if ltb w 10 then some (suc w) else none

abbrev batch : EventBatch ℕ
batch = record default_batch { raw_frame = 91 ∷ 1 ∷ 2 ∷ []; events = 2 ∷ 3 ∷ [] }

abbrev receipt : FrameReceipt
receipt = record { process_generation = 1; wall_time_ns = 2; monotonic_ns = 3 }

abbrev two : TransportSequenceRange
two = record { first = 1; last = 2 }

test_decode : decode_frame deserialize try_from (91 ∷ 1 ∷ 2 ∷ []) ≡ some batch
unfolding decode_frame
test_decode = refl

test_reserved_two :
    (reserve_transport_sequences (sequence_width batch) (new_with_identity 7)).1 ≡ some two
unfolding reserve_transport_sequences new_with_identity update lock set_transport_sequences
    sequence_width default_batch
test_reserved_two = refl

reserved_frame_is_sequenced_example :
    let t = with_transport_context batch receipt 1 1 4 5 in
    ((e : RawFrame) × (raw_evidence t ≡ some e)
      × (e.first_transport_sequence ≡ 1)
      × (e.last_transport_sequence ≡ 2)
      × (e.bytes ≡ batch.raw_frame))
    × (into_sequenced_events t ≡ some (numbered 1 4 5 batch.events))
reserved_frame_is_sequenced_example =
    reserved_frame_is_sequenced batch (new_with_identity 7) two receipt 1 4 5 test_reserved_two
