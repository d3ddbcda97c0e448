-- ===== src/Ws/Frame/Laws.antt =====
-- auth/ws/frame.rs: decoding, and the sequences of a frame.
use rspm.Common.{
  ℕ, suc, ◌+◌, ◌-◌, ◌≤◌, ◌<◌, ◌≡◌, ◌⊎◌, inl, inr, some, none, Option, List, [], ◌∷◌, length, map,
  refl, arith, u64_max, Option-cases,
}
use rspm.Ws.StateCell.{Cell, TransportSequenceRange}
use rspm.Ws.StateCell.Marks.{reserve_transport_sequences}
use rspm.Ws.StateCell.Run.Fresh.{reserve_transport_sequences_next}
use rspm.Ws.Frame.{
  invalid_text_schema, RawFrame, FrameReceipt, EventBatch, max_frame_bytes, default_batch,
  sequence_width, raw_evidence, into_sequenced_events, sequenced_from, try_from_all, decode_frame,
  capture_text_frame, with_transport_context,
}

module _ {Event : Type 0} where
  -- The events of a batch, with the sequences from a number on.
  abbrev pub numbered : ℕ → ℕ → ℕ → List Event → List (ℕ × ℕ × ℕ × Event)
  numbered sequence generation gap_version [] = []
  numbered sequence generation gap_version (event ∷ events) =
      (sequence, generation, gap_version, event)
      ∷ numbered (suc sequence) generation gap_version events

  sequenced_from_lem :
      (b : EventBatch Event) (offset sequence : ℕ) (events : List Event)
      → sequence ≡ b.first_transport_sequence + offset
      → sequence + length events ≤ suc u64_max
      → sequenced_from b offset events
        ≡ some (numbered sequence b.socket_generation b.socket_gap_version events)
  unfolding sequenced_from
  sequenced_from_lem b offset sequence [] e h = refl
  sequenced_from_lem b offset sequence (event ∷ events) e h =
      ground (arith, sequenced_from_lem b (suc offset) (suc sequence) events)

  raw_evidence_of :
      (b : EventBatch Event) (receipt : FrameReceipt)
      → b.receipt ≡ some receipt
      → b.first_transport_sequence + (sequence_width b - 1) ≤ u64_max
      → raw_evidence b
        ≡ some (record {
          frame_sequence = b.frame_sequence;
          first_transport_sequence = b.first_transport_sequence;
          last_transport_sequence = b.first_transport_sequence + (sequence_width b - 1);
          socket_generation = b.socket_generation;
          socket_gap_version = b.socket_gap_version;
          receipt = receipt;
          encoding = b.encoding;
          gap = b.frame_gap;
          bytes = b.raw_frame;
        })
  unfolding raw_evidence sequence_width
  raw_evidence_of b receipt r h = ground arith

  context_fields :
      (b : EventBatch Event) (receipt : FrameReceipt)
      (frame_sequence sequence generation gap_version : ℕ)
      → let t = with_transport_context b receipt frame_sequence sequence generation gap_version in
        (t.first_transport_sequence ≡ sequence)
        × (t.receipt ≡ some receipt)
        × (t.socket_generation ≡ generation)
        × (t.socket_gap_version ≡ gap_version)
        × (t.events ≡ b.events)
        × (t.raw_frame ≡ b.raw_frame)
        × (sequence_width t ≡ sequence_width b)
  unfolding with_transport_context sequence_width
  context_fields b receipt frame_sequence sequence generation gap_version =
      (refl, refl, refl, refl, refl, refl, refl)

  -- A frame that is sequenced from a range that the cell has reserved for its width never panics:
  -- its evidence spans exactly that range and has the frame's bytes, and its events take
  -- consecutive sequences from the first of the range on.
  pub reserved_frame_is_sequenced :
      (b : EventBatch Event) (c : Cell) (range : TransportSequenceRange) (receipt : FrameReceipt)
      (frame_sequence generation gap_version : ℕ)
      → (reserve_transport_sequences (sequence_width b) c).1 ≡ some range
      → let t =
          with_transport_context b receipt frame_sequence range.first generation gap_version in
        ((e : RawFrame) × (raw_evidence t ≡ some e)
          × (e.first_transport_sequence ≡ range.first)
          × (e.last_transport_sequence ≡ range.last)
          × (e.bytes ≡ b.raw_frame))
        × (into_sequenced_events t ≡ some (numbered range.first generation gap_version b.events))
  unfolding with_transport_context into_sequenced_events sequence_width
  reserved_frame_is_sequenced b c range receipt frame_sequence generation gap_version h =
      let (pos, first, last, fits, _) =
        reserve_transport_sequences_next (sequence_width b) c range h in
      let t = with_transport_context b receipt frame_sequence range.first generation gap_version in
      (
        (_, raw_evidence_of t receipt refl (omega arith), refl, omega arith, refl),
        sequenced_from_lem t 0 range.first b.events (omega arith) (omega arith),
      )

module _ {Wire Event : Type 0} (try_from : Wire → Option Event) where
  pub try_from_all-some :
      (wire : List Wire) (events : List Event)
      → try_from_all try_from wire ≡ some events
      → map try_from wire ≡ map some events
  unfolding try_from_all
  try_from_all-some [] events h = ground arith
  try_from_all-some (w ∷ ws) events h = elim (Option-cases (try_from w)) [
    | inl refused ↦ absurd (ground (arith, refused))
    | inr (event, converted) ↦ elim (Option-cases (try_from_all try_from ws)) [
      | inl refused ↦ absurd (ground (arith, converted, refused))
      | inr (rest, all) ↦
          let same : events ≡ event ∷ rest = ground (arith, converted, all) in
          rw (same, converted, try_from_all-some ws rest all) refl
    ]
  ]

module _ {Wire Event : Type 0} (deserialize : List ℕ → Option (List Wire))
    (try_from : Wire → Option Event) where
  -- A text frame that decodes is within the limit; every wire event of it converts, in order, and
  -- the batch keeps the bytes and has no gap.
  pub decode_frame-some :
      (frame : List ℕ) (b : EventBatch Event)
      → decode_frame deserialize try_from frame ≡ some b
      → (0 < length frame)
        × (length frame ≤ max_frame_bytes)
        × (b.raw_frame ≡ frame)
        × (b.frame_gap ≡ none)
        × ((wire : List Wire) × (deserialize frame ≡ some wire)
            × (map try_from wire ≡ map some b.events))
  unfolding decode_frame
  decode_frame-some frame b h = elim (Option-cases (deserialize frame)) [
    | inl failed ↦ absurd (ground (arith, failed))
    | inr (wire, read) ↦ elim (Option-cases (try_from_all try_from wire)) [
      | inl refused ↦ absurd (ground (arith, read, refused))
      | inr (events, all) ↦
          let same : b ≡ record default_batch { raw_frame = frame; events = events } =
            ground (arith, read, all) in
          (
            ground (arith, read),
            ground (arith, read),
            rw same refl,
            rw same refl,
            (wire, read, rw same (try_from_all-some try_from wire events all)),
          )
    ]
  ]

  -- What is captured has the bytes of the frame, whether or not they decode, and a schema gap and
  -- no events exactly where they do not.
  pub capture_text_frame_lem :
      (frame : List ℕ)
      → let b = capture_text_frame deserialize try_from frame in
        (b.raw_frame ≡ frame)
        × (((decode_frame deserialize try_from frame ≡ some b) × (b.frame_gap ≡ none))
            ⊎ ((decode_frame deserialize try_from frame ≡ none)
                × (b.frame_gap ≡ some invalid_text_schema)
                × (b.events ≡ [])))
  unfolding capture_text_frame default_batch
  capture_text_frame_lem frame = elim (Option-cases (decode_frame deserialize try_from frame)) [
    | inl failed ↦ rw (failed, capture_text_frame) (refl, inr (refl, refl, refl))
    | inr (batch, decoded) ↦
        let (_, _, bytes, gap, _) = decode_frame-some frame batch decoded in
        rw (decoded, capture_text_frame) (bytes, inl (refl, gap))
  ]
