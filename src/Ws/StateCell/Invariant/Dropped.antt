-- ===== src/Ws/StateCell/Invariant/Dropped.antt =====
-- auth/ws/state_cell/ledger.rs: well-formedness under a drop.
use rspm.Common.{
  ℕ, ◌≤◌, ◌<◌, ◌≡◌, refl, inl, inr, true, some, List, [], ◌∷◌, not, arith, length, if_elim,
  Option-cases,
}
use rspm.Ws.StateCell.{Cell, TransportSequenceRange, max_dropped_ranges, publish, lock-cases}
use rspm.Ws.StateCell.Marks.{set_delivery_lost}
use rspm.Ws.StateCell.Ledger.{range_is_reserved, extend_last, push_range, drop_range, mark_dropped}
use rspm.Ws.StateCell.Coverage.{RangesWithin, RangesWithin-mono}
use rspm.Ws.StateCell.Progress.Closures.{set_delivery_lost-Marked}
use rspm.Ws.StateCell.Invariant.{IsValid}
use rspm.Ws.StateCell.Invariant.Closures.{set_delivery_lost-IsValidState}
use rspm.Ws.StateCell.Invariant.Operations.{publish_poisoned-IsValid, Marked-IsValid, ValidFirst}

-- Beside a range, the only list within the capacity is the empty one.
push_range-RangesWithin :
    (range : TransportSequenceRange) (hi : ℕ) (ranges pushed : List (ℕ × ℕ))
    → RangesWithin 1 hi ranges
    → length ranges ≤ max_dropped_ranges
    → 0 < range.first
    → range.first ≤ range.last
    → range.last ≤ hi
    → push_range range ranges ≡ some pushed
    → RangesWithin 1 hi pushed × (length pushed ≤ max_dropped_ranges)
unfolding push_range extend_last
push_range-RangesWithin range hi [] pushed r n pos le up e = ground arith
push_range-RangesWithin range hi ((first, last) ∷ []) pushed r n pos le up e = ground arith
push_range-RangesWithin range hi (a ∷ b ∷ rest) pushed r n pos le up e = absurd (omega arith)

-- The state that a refused range leaves.
pub closed_consumer-IsValid :
    (c : Cell)
    → IsValid c
    → IsValid (
        publish
          (record c { state = set_delivery_lost (record c.state { consumer_closed = true }) }))
unfolding set_delivery_lost
closed_consumer-IsValid c v = ground arith

lost-IsValid :
    (c : Cell) → IsValid c → IsValid (publish (record c { state = set_delivery_lost c.state }))
lost-IsValid c v =
    Marked-IsValid c _ v (set_delivery_lost-Marked c.state)
      (set_delivery_lost-IsValidState c.state v.valid_state)

dropped-IsValid :
    (c : Cell) (ranges : List (ℕ × ℕ))
    → IsValid c
    → RangesWithin 1 c.state.transport_sequence ranges
    → length ranges ≤ max_dropped_ranges
    → IsValid (publish (record c { state = set_delivery_lost c.state; dropped_ranges = ranges }))
dropped-IsValid c ranges v r n =
    let w = lost-IsValid c v in
    record {
      valid_state = w.valid_state;
      ascending = w.ascending;
      set_capped = w.set_capped;
      ranges =
          RangesWithin-mono 1 1 (set_delivery_lost c.state).transport_sequence
            c.state.transport_sequence ranges (omega arith)
            (set_delivery_lost-Marked c.state).transport_le r;
      ranges_capped = n;
      keyed = w.keyed;
      counted = w.counted;
      poison_agrees = w.poison_agrees;
      published = refl;
    }

drop_range-IsValid :
    (range : TransportSequenceRange) (c : Cell)
    → IsValid c
    → range_is_reserved range c.state ≡ true
    → IsValid (drop_range range c).0
unfolding drop_range range_is_reserved
drop_range-IsValid range c v reserved = elim (Option-cases (push_range range c.dropped_ranges)) [
  | inl full ↦ rw (full, drop_range) (closed_consumer-IsValid c v)
  | inr (ranges, pushed) ↦
      let (within, capped) =
        push_range-RangesWithin range c.state.transport_sequence c.dropped_ranges ranges v.ranges
          v.ranges_capped (ground arith) (ground arith) (ground arith) pushed in
      rw (pushed, drop_range) (dropped-IsValid c ranges v within capped)
]

pub mark_dropped-IsValid :
    (range : TransportSequenceRange) (c : Cell) → IsValid c → IsValid (mark_dropped range c).0
unfolding mark_dropped
mark_dropped-IsValid range c v = elim (lock-cases c) [
  | inl e ↦ rw e (publish_poisoned-IsValid c v)
  | inr (e, _, _) ↦ rw e (
      if_elim ValidFirst (not (range_is_reserved range c.state)) (λ _. lost-IsValid c v)
        (λ reserved.
          if_elim ValidFirst c.dropped_mutex (λ _. publish_poisoned-IsValid c v)
            (λ _. drop_range-IsValid range c v (ground arith))))
]
