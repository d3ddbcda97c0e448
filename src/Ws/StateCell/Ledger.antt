-- ===== src/Ws/StateCell/Ledger.antt =====
-- auth/ws/state_cell/ledger.rs: the transport frontiers (enqueued, dropped, durable).
use rspm.Common.{
  ℕ, zero, suc, Bool, true, false, not, ◌&&◌, ◌||◌, Option, none, some, List, [], ◌∷◌, ◌++◌, max,
  length, ltb, leb, ◌==◌, if◌then◌else◌, checked_add, option_eq,
}
use rspm.Common.OrderedSet.{contains, insert, remove}
use rspm.Ws.State.{WsState, CounterExhaustion}
use rspm.Ws.StateCell.{
  Cell, TransportSequenceRange, max_durable_out_of_order, max_dropped_ranges, fail_counter,
  next_durable_sequence, publish, publish_poisoned, lock, update_state,
}
use rspm.Ws.StateCell.Marks.{set_delivery_lost}

-- `first != 0 && first <= last && last <= transport_sequence`.
unfoldable pub range_is_reserved : TransportSequenceRange → WsState → Bool
range_is_reserved range s =
    not (range.first == 0) && leb range.first range.last && leb range.last s.transport_sequence

unfoldable pub set_enqueued : TransportSequenceRange → WsState → WsState
unfolding set_delivery_lost
set_enqueued range s =
    if range_is_reserved range s
    then record s { enqueued_sequence = max s.enqueued_sequence range.last }
    else set_delivery_lost s

unfoldable pub mark_enqueued : TransportSequenceRange → Cell → Cell
mark_enqueued range = update_state (set_enqueued range)

-- The last range, made longer if the new one follows it without a gap.
unfoldable pub extend_last : TransportSequenceRange → List (ℕ × ℕ) → Option (List (ℕ × ℕ))
extend_last range [] = none
extend_last range ((first, last) ∷ []) =
    if option_eq (checked_add last 1) (some range.first)
    then some ((first, range.last) ∷ [])
    else none
extend_last range (r ∷ next ∷ rest) = elim (extend_last range (next ∷ rest)) [
  | none ↦ none
  | some ranges ↦ some (r ∷ ranges)
]

-- The ranges with the new one, or `none` where there is no room for it.
unfoldable pub push_range : TransportSequenceRange → List (ℕ × ℕ) → Option (List (ℕ × ℕ))
push_range range ranges = elim (extend_last range ranges) [
  | some extended ↦ some extended
  | none ↦
      if ltb (length ranges) max_dropped_ranges
      then some (ranges ++ (range.first, range.last) ∷ [])
      else none
]

-- The entry under both locks; a range without room closes the consumer.
unfoldable pub drop_range : TransportSequenceRange → Cell → Cell × Bool
drop_range range c = elim (push_range range c.dropped_ranges) [
  | some ranges ↦
      (publish (record c { state = set_delivery_lost c.state; dropped_ranges = ranges }), true)
  | none ↦ (
    publish (record c { state = set_delivery_lost (record c.state { consumer_closed = true }) }),
    false,
  )
]

unfoldable pub mark_dropped : TransportSequenceRange → Cell → Cell × Bool
mark_dropped range c =
    let (locked, granted) = lock c in
    if not granted
    then (locked, false)
    else if not (range_is_reserved range locked.state)
    then (publish (record locked { state = set_delivery_lost locked.state }), false)
    else if locked.dropped_mutex
    then (publish_poisoned locked, false)
    else drop_range range locked

-- The outcome of the loop that moves the frontier over what is already durable.
pub data Advanced : Type 0 where
  reached : ℕ → List ℕ → Advanced
  exhausted : ℕ → List ℕ → Advanced
  out_of_fuel : Advanced

unfoldable pub advance_durable : ℕ → ℕ → ℕ → List ℕ → Advanced
unfolding next_durable_sequence
advance_durable zero transport durable out_of_order = out_of_fuel
advance_durable (suc fuel) transport durable out_of_order = elim (ltb durable transport) [
  | false ↦ reached durable out_of_order
  | true ↦ elim (next_durable_sequence durable) [
    | none ↦ exhausted durable out_of_order
    | some next ↦ elim (contains next out_of_order) [
      | false ↦ reached durable out_of_order
      | true ↦ advance_durable fuel transport next (remove next out_of_order)
    ]
  ]
]

-- The cell after the loop; each round takes an element from the set, which bounds the rounds.
unfoldable pub write_advanced : Advanced → Cell → Cell × Bool
write_advanced (reached durable rest) c = (
  publish (record c {
    state = record c.state { durable_sequence = durable };
    durable_out_of_order = rest;
  }),
  true,
)
write_advanced (exhausted durable rest) c = (
  publish (record c {
    state =
        fail_counter (record c.state { durable_sequence = durable })
          CounterExhaustion.durable_sequence;
    durable_out_of_order = rest;
  }),
  false,
)
write_advanced out_of_fuel c = (c, false)

unfoldable pub insert_durable : ℕ → Cell → Cell × Bool
insert_durable sequence c =
    let inserted = insert sequence c.durable_out_of_order in
    if leb max_durable_out_of_order (length c.durable_out_of_order)
      && not (contains sequence c.durable_out_of_order)
    then (
      publish (record c { state = set_delivery_lost (record c.state { consumer_closed = true }) }),
      false,
    )
    else write_advanced
        (advance_durable (suc (length inserted)) c.state.transport_sequence c.state.durable_sequence
          inserted)
        c

unfoldable pub acknowledge_durable : ℕ → Cell → Cell × Bool
acknowledge_durable sequence c =
    let (locked, granted) = lock c in
    if not granted
    then (locked, false)
    else if sequence == 0 || ltb locked.state.transport_sequence sequence
    then (locked, false)
    else if leb sequence locked.state.durable_sequence
    then (locked, true)
    else if locked.durable_mutex
    then (publish_poisoned locked, false)
    else insert_durable sequence locked
