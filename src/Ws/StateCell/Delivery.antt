-- ===== src/Ws/StateCell/Delivery.antt =====
-- auth/ws/state_cell/ledger.rs: what an acknowledgement and a drop record.
pub mod Drops
pub mod Retention
use rspm.Common.{
  ℕ, suc, ◌+◌, ◌≤◌, ◌<◌, ◌≡◌, ◌⊎◌, inl, inr, Bool, true, false, not, ◌&&◌, ◌||◌, some, none, Option,
  List, [], ◌∷◌, ◌++◌, length, refl, ◌==◌, ltb, leb, if_elim, if◌then◌else◌, arith, u64_max,
  checked_add, Option-cases, Bool-cases,
}
use rspm.Common.OrderedSet.{contains, insert, contains-insert}
use rspm.Ws.State.{WsState, is_ready}
use rspm.Ws.StateCell.{
  Cell, TransportSequenceRange, max_dropped_ranges, max_durable_out_of_order, publish,
  publish_poisoned, lock, lock-cases, lock_open,
}
use rspm.Ws.StateCell.Marks.{set_delivery_lost}
use rspm.Ws.StateCell.Ledger.{
  range_is_reserved, extend_last, push_range, drop_range, mark_dropped, insert_durable,
  acknowledge_durable,
}
use rspm.Ws.StateCell.Durability.{IsFrontier}
use rspm.Ws.StateCell.Coverage.{in_ranges, RangesWithin}
use rspm.Ws.StateCell.Invariant.{IsValid}
use rspm.Ws.StateCell.Invariant.Ledger.{
  at_frontier, insert_durable_reached, insert_durable_full, acknowledge_durable-KeepsBoth,
}

-- The record of a sequence: behind the durable frontier or in the set of those ahead of it.
abbrev pub is_acknowledged : ℕ → Cell → Bool
is_acknowledged z c = leb z c.state.durable_sequence || contains z c.durable_out_of_order

-- The record of `d` is that of `c` with one sequence more.
abbrev pub Acknowledges : ℕ → Cell → Cell × Bool → Type 0
Acknowledges sequence c r =
    r.1 ≡ true
    → (0 < sequence)
      × (sequence ≤ c.state.transport_sequence)
      × ((z : ℕ) → 0 < z → is_acknowledged z r.0 ≡ (is_acknowledged z c || z == sequence))

frontier_acknowledges :
    (sequence durable z : ℕ) (rest : List ℕ) (c : Cell)
    → IsFrontier c.state.transport_sequence c.state.durable_sequence
        (insert sequence c.durable_out_of_order)
        durable
        rest
    → (leb z durable || contains z rest) ≡ (is_acknowledged z c || z == sequence)
frontier_acknowledges sequence durable z rest c f =
    ground
      (arith, f.taken z, f.covered z, f.grows, contains-insert z sequence c.durable_out_of_order)

insert_durable-Acknowledges :
    (sequence : ℕ) (c : Cell)
    → IsValid c
    → 0 < sequence
    → sequence ≤ c.state.transport_sequence
    → Acknowledges sequence c (insert_durable sequence c)
insert_durable-Acknowledges sequence c v pos le =
    elim (Bool-cases (
      leb max_durable_out_of_order (length c.durable_out_of_order)
      && not (contains sequence c.durable_out_of_order))) [
        | inl full ↦ rw (insert_durable_full sequence c full) (λ h. absurd (ground arith))
        | inr room ↦
            let (durable, rest, e, f) = insert_durable_reached sequence c v pos room in
            rw e (λ h. (pos, le, λ z z_pos. frontier_acknowledges sequence durable z rest c f))
      ]

acknowledge_durable-Acknowledges :
    (sequence : ℕ) (c : Cell) → IsValid c → Acknowledges sequence c (acknowledge_durable sequence c)
unfolding acknowledge_durable
acknowledge_durable-Acknowledges sequence c v =
    let P : Cell × Bool → Type 0 = Acknowledges sequence c in
    elim (lock-cases c) [
      | inl e ↦ rw e (λ h. absurd (ground arith))
      | inr (e, _, _) ↦ rw e (
          if_elim P (sequence == 0 || ltb c.state.transport_sequence sequence)
            (λ outside h. absurd (ground arith))
            (λ inside.
              if_elim P (leb sequence c.state.durable_sequence)
                (λ behind h. (ground arith, ground arith, λ z pos. ground arith))
                (λ ahead.
                  if_elim P c.durable_mutex (λ _ h. absurd (ground arith))
                    (λ _. insert_durable-Acknowledges sequence c v (ground arith) (ground arith)))))
    ]

-- An acknowledgement on a well-formed cell that succeeds names a reserved sequence and adds exactly
-- that one to the positive sequences on record, wherever the frontier goes.
pub acknowledge_durable_adds :
    (sequence : ℕ) (c : Cell) (z : ℕ)
    → IsValid c
    → 0 < z
    → (acknowledge_durable sequence c).1 ≡ true
    → (0 < sequence)
      × (sequence ≤ c.state.transport_sequence)
      × (is_acknowledged z (acknowledge_durable sequence c).0
          ≡ (is_acknowledged z c || z == sequence))
acknowledge_durable_adds sequence c z v pos h =
    let (positive, reserved, adds) = acknowledge_durable-Acknowledges sequence c v h in
    (positive, reserved, adds z pos)

insert_durable_succeeds :
    (sequence : ℕ) (c : Cell)
    → IsValid c
    → 0 < sequence
    → length c.durable_out_of_order < max_durable_out_of_order
    → ((insert_durable sequence c).1 ≡ true)
      × ((insert_durable sequence c).0.state.durable_sequence < c.state.transport_sequence
          → is_acknowledged (suc (insert_durable sequence c).0.state.durable_sequence) c ≡ false)
insert_durable_succeeds sequence c v pos room =
    let (durable, rest, e, f) = insert_durable_reached sequence c v pos (ground (arith, room)) in
    rw e (
      refl,
      λ lt. ground (
        arith,
        f.stops lt,
        f.grows,
        contains-insert (suc durable) sequence c.durable_out_of_order,
      ),
    )

-- On a healthy cell with room in the set, the acknowledgement of a reserved sequence succeeds.
pub acknowledge_durable_succeeds :
    (sequence : ℕ) (c : Cell)
    → IsValid c
    → c.authority_poisoned ≡ false
    → c.state_mutex ≡ false
    → c.durable_mutex ≡ false
    → 0 < sequence
    → sequence ≤ c.state.transport_sequence
    → length c.durable_out_of_order < max_durable_out_of_order
    → (acknowledge_durable sequence c).1 ≡ true
unfolding acknowledge_durable
acknowledge_durable_succeeds sequence c v a m d pos le room =
    let P : Cell × Bool → Type 0 = λ r. r.1 ≡ true in
    rw (lock_open c a m) (
      if_elim P (sequence == 0 || ltb c.state.transport_sequence sequence)
        (λ outside. absurd (ground arith))
        (λ inside.
          if_elim P (leb sequence c.state.durable_sequence) (λ behind. refl)
            (λ ahead.
              if_elim P c.durable_mutex (λ poisoned. absurd (ground arith))
                (λ _. (insert_durable_succeeds sequence c v pos room).0))))

-- Acknowledgements in a row, up to the first that fails.
abbrev pub acknowledge_all : List ℕ → Cell → Cell × Bool
acknowledge_all [] c = (c, true)
acknowledge_all (sequence ∷ rest) c =
    let (d, acknowledged) = acknowledge_durable sequence c in
    let later = acknowledge_all rest d in if acknowledged then later else (d, false)

acknowledge_all_adds :
    (sequences : List ℕ) (c : Cell) (z : ℕ)
    → IsValid c
    → 0 < z
    → (acknowledge_all sequences c).1 ≡ true
    → is_acknowledged z (acknowledge_all sequences c).0
      ≡ (is_acknowledged z c || contains z sequences)
acknowledge_all_adds [] c z v pos h = ground arith
acknowledge_all_adds (sequence ∷ rest) c z v pos h =
    let (w, _) = acknowledge_durable-KeepsBoth sequence c v in
    elim (Bool-cases (acknowledge_durable sequence c).1) [
      | inl done ↦
          let (_, _, adds) = acknowledge_durable_adds sequence c z v pos done in
          let later = acknowledge_all_adds rest (acknowledge_durable sequence c).0 z w pos in
          ground (arith, adds, later)
      | inr failed ↦ absurd (ground arith)
    ]

-- The order of acknowledgements and their repetition do not matter: two runs over the same
-- sequences, if both succeed, put the same sequences on record.
pub acknowledgement_order :
    (sequences others : List ℕ) (c : Cell)
    → IsValid c
    → ((z : ℕ) → contains z sequences ≡ contains z others)
    → (acknowledge_all sequences c).1 ≡ true
    → (acknowledge_all others c).1 ≡ true
    → (z : ℕ) → 0 < z
    → is_acknowledged z (acknowledge_all sequences c).0
      ≡ is_acknowledged z (acknowledge_all others c).0
acknowledgement_order sequences others c v same h k z pos = ground (
  arith,
  same z,
  acknowledge_all_adds sequences c z v pos h,
  acknowledge_all_adds others c z v pos k,
)
