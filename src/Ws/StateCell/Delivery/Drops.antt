-- ===== src/Ws/StateCell/Delivery/Drops.antt =====
-- auth/ws/state_cell/ledger.rs: `mark_dropped`.
use rspm.Common.{
  ℕ, ◌≤◌, ◌≡◌, inl, inr, Bool, true, not, ◌&&◌, ◌||◌, some, List, [], ◌∷◌, length, leb, if_elim,
  arith, Option-cases,
}
use rspm.Ws.State.{WsState}
use rspm.Ws.StateCell.{
  Cell, TransportSequenceRange, max_dropped_ranges, publish_poisoned, lock-cases,
}
use rspm.Ws.StateCell.Marks.{set_delivery_lost}
use rspm.Ws.StateCell.Ledger.{range_is_reserved, extend_last, push_range, drop_range, mark_dropped}
use rspm.Ws.StateCell.Coverage.{in_ranges, RangesWithin}
use rspm.Ws.StateCell.Invariant.{IsValid}

-- What a drop promises: the loss is on record in the state, and if it succeeds the ledger has
-- grown by exactly the range.
abbrev pub Drops : TransportSequenceRange → Cell → Cell × Bool → Type 0
Drops range c r =
    (r.0.state.delivery_gap ≡ true)
    × (r.1 ≡ true
        → (z : ℕ)
        → in_ranges z r.0.dropped_ranges
          ≡ (in_ranges z c.dropped_ranges || (leb range.first z && leb z range.last)))

push_range-in_ranges :
    (range : TransportSequenceRange) (ranges pushed : List (ℕ × ℕ)) (hi z : ℕ)
    → RangesWithin 1 hi ranges
    → length ranges ≤ max_dropped_ranges
    → range.first ≤ range.last
    → push_range range ranges ≡ some pushed
    → in_ranges z pushed ≡ (in_ranges z ranges || (leb range.first z && leb z range.last))
unfolding push_range extend_last
push_range-in_ranges range [] pushed hi z r n le e = ground arith
push_range-in_ranges range ((first, last) ∷ []) pushed hi z r n le e = ground arith
push_range-in_ranges range (a ∷ b ∷ rest) pushed hi z r n le e = absurd (omega arith)

lost_gap : (s : WsState) → (set_delivery_lost s).delivery_gap ≡ true
unfolding set_delivery_lost
lost_gap s = ground arith

poisoned_gap : (c : Cell) → (publish_poisoned c).state.delivery_gap ≡ true
unfolding publish_poisoned
poisoned_gap c = ground arith

drop_range-Drops :
    (range : TransportSequenceRange) (c : Cell)
    → IsValid c
    → range_is_reserved range c.state ≡ true
    → Drops range c (drop_range range c)
unfolding drop_range range_is_reserved
drop_range-Drops range c v reserved = elim (Option-cases (push_range range c.dropped_ranges)) [
  | inl full ↦ rw (full, drop_range) (lost_gap _, λ h. absurd (ground arith))
  | inr (ranges, pushed) ↦
      rw (pushed, drop_range)
        (
          lost_gap c.state,
          λ h z.
              push_range-in_ranges range c.dropped_ranges ranges c.state.transport_sequence z
                v.ranges v.ranges_capped (ground arith) pushed,
        )
]

mark_dropped-Drops :
    (range : TransportSequenceRange) (c : Cell) → IsValid c → Drops range c (mark_dropped range c)
unfolding mark_dropped
mark_dropped-Drops range c v =
    let P : Cell × Bool → Type 0 = Drops range c in
    elim (lock-cases c) [
      | inl e ↦ rw e (poisoned_gap c, λ h. absurd (ground arith))
      | inr (e, _, _) ↦ rw e (
          if_elim P (not (range_is_reserved range c.state))
            (λ foreign. (lost_gap c.state, λ h. absurd (ground arith)))
            (λ reserved.
              if_elim P c.dropped_mutex (λ _. (poisoned_gap c, λ h. absurd (ground arith)))
                (λ _. drop_range-Drops range c v (ground arith))))
    ]

-- A drop on a well-formed cell leaves a delivery gap, whatever its outcome.
pub mark_dropped_leaves_gap :
    (range : TransportSequenceRange) (c : Cell)
    → IsValid c
    → (mark_dropped range c).0.state.delivery_gap ≡ true
mark_dropped_leaves_gap range c v = (mark_dropped-Drops range c v).0

-- A drop on a well-formed cell that succeeds adds exactly its range to the dropped sequences on
-- record.
pub mark_dropped_adds :
    (range : TransportSequenceRange) (c : Cell)
    → IsValid c
    → (mark_dropped range c).1 ≡ true
    → (z : ℕ)
    → in_ranges z (mark_dropped range c).0.dropped_ranges
      ≡ (in_ranges z c.dropped_ranges || (leb range.first z && leb z range.last))
mark_dropped_adds range c v h = (mark_dropped-Drops range c v).1 h
