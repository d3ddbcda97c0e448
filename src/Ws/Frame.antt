-- ===== src/Ws/Frame.antt =====
-- auth/ws/frame.rs: captured frames and their decoded batches. The JSON deserializer is a parameter
-- of the functions that decode, and so is the conversion of one wire event.
pub mod Laws
pub mod Examples
use rspm.Common.{
  ℕ, suc, ◌-◌, ◌||◌, Option, none, some, List, [], ◌∷◌, max, length, ltb, ◌==◌, if◌then◌else◌,
  checked_add,
}

pub data FrameEncoding : Type 0 where
  text binary raw : FrameEncoding

pub data FrameGap : Type 0 where
  invalid_text_schema unsupported_binary unsupported_raw_frame : FrameGap

-- The UUID is read as one number.
pub record FrameReceipt : Type 0 where
  pub process_generation : ℕ
  pub wall_time_ns : ℕ
  pub monotonic_ns : ℕ

pub record RawFrame : Type 0 where
  pub frame_sequence : ℕ
  pub first_transport_sequence : ℕ
  pub last_transport_sequence : ℕ
  pub socket_generation : ℕ
  pub socket_gap_version : ℕ
  pub receipt : FrameReceipt
  pub encoding : FrameEncoding
  pub gap : Option FrameGap
  pub bytes : List ℕ

pub record EventBatch (Event : Type 0) : Type 0 where
  pub frame_sequence : ℕ
  pub first_transport_sequence : ℕ
  pub socket_generation : ℕ
  pub socket_gap_version : ℕ
  pub receipt : Option FrameReceipt
  pub encoding : FrameEncoding
  pub frame_gap : Option FrameGap
  pub raw_frame : List ℕ
  pub events : List Event

abbrev pub max_frame_bytes : ℕ
max_frame_bytes = 1048576

module _ {Event : Type 0} where
  -- `EventBatch::default()`.
  unfoldable pub default_batch : EventBatch Event
  default_batch = record {
    frame_sequence = 0;
    first_transport_sequence = 0;
    socket_generation = 0;
    socket_gap_version = 0;
    receipt = none;
    encoding = text;
    frame_gap = none;
    raw_frame = [];
    events = [];
  }

  unfoldable pub capture_binary_frame : List ℕ → EventBatch Event
  unfolding default_batch
  capture_binary_frame frame = record default_batch {
    encoding = binary;
    frame_gap = some unsupported_binary;
    raw_frame = frame;
  }

  unfoldable pub capture_raw_frame : List ℕ → EventBatch Event
  unfolding default_batch
  capture_raw_frame frame = record default_batch {
    encoding = raw;
    frame_gap = some unsupported_raw_frame;
    raw_frame = frame;
  }

  unfoldable pub sequence_width : EventBatch Event → ℕ
  sequence_width b = max (length b.events) 1

  -- `none` is the panic of an `expect`.
  unfoldable pub raw_evidence : EventBatch Event → Option RawFrame
  unfolding sequence_width
  raw_evidence b = elim b.receipt [
    | none ↦ none
    | some receipt ↦ elim (checked_add b.first_transport_sequence (sequence_width b - 1)) [
      | none ↦ none
      | some last ↦ some (record {
        frame_sequence = b.frame_sequence;
        first_transport_sequence = b.first_transport_sequence;
        last_transport_sequence = last;
        socket_generation = b.socket_generation;
        socket_gap_version = b.socket_gap_version;
        receipt = receipt;
        encoding = b.encoding;
        gap = b.frame_gap;
        bytes = b.raw_frame;
      })
    ]
  ]

  unfoldable pub with_transport_context :
      EventBatch Event → FrameReceipt → ℕ → ℕ → ℕ → ℕ → EventBatch Event
  with_transport_context b receipt frame_sequence sequence generation gap_version = record b {
    frame_sequence = frame_sequence;
    first_transport_sequence = sequence;
    socket_generation = generation;
    socket_gap_version = gap_version;
    receipt = some receipt;
  }

  -- The events with their sequences, from the offset on; `none` is the panic of an `expect`.
  sequenced_from : EventBatch Event → ℕ → List Event → Option (List (ℕ × ℕ × ℕ × Event))
  sequenced_from b offset [] = some []
  sequenced_from b offset (event ∷ events) = elim (checked_add b.first_transport_sequence offset) [
    | none ↦ none
    | some sequence ↦ elim (sequenced_from b (suc offset) events) [
      | none ↦ none
      | some rest ↦ some ((sequence, b.socket_generation, b.socket_gap_version, event) ∷ rest)
    ]
  ]

  unfoldable pub into_sequenced_events : EventBatch Event → Option (List (ℕ × ℕ × ℕ × Event))
  unfolding sequenced_from
  into_sequenced_events b = sequenced_from b 0 b.events

-- `collect::<Result<Vec<_>, _>>()` over the conversion of each wire event.
unfoldable pub try_from_all {ℓ} :
    {Wire : Type ℓ} {Event : Type 0} → (Wire → Option Event) → List Wire → Option (List Event)
try_from_all try_from [] = some []
try_from_all try_from (w ∷ ws) = elim (try_from w) [
  | none ↦ none
  | some event ↦ elim (try_from_all try_from ws) [ none ↦ none | some rest ↦ some (event ∷ rest) ]
]

-- `deserialize` reads the whole text or fails; `try_from` is the conversion of wire.rs.
module _ {Wire Event : Type 0} (deserialize : List ℕ → Option (List Wire))
    (try_from : Wire → Option Event) where
  -- The only error of the function is `FrameSchema`: `none`.
  unfoldable pub decode_frame : List ℕ → Option (EventBatch Event)
  unfolding default_batch try_from_all
  decode_frame frame =
      if length frame == 0 || ltb max_frame_bytes (length frame)
      then none
      else elim (deserialize frame) [
        | none ↦ none
        | some wire ↦ elim (try_from_all try_from wire) [
          | none ↦ none
          | some events ↦ some (record default_batch { raw_frame = frame; events = events })
        ]
      ]

  unfoldable pub capture_text_frame : List ℕ → EventBatch Event
  capture_text_frame frame = elim (decode_frame frame) [
    | none ↦ record default_batch {
      encoding = text;
      frame_gap = some invalid_text_schema;
      raw_frame = frame;
    }
    | some batch ↦ batch
  ]
