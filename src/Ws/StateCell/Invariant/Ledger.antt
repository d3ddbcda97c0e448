-- ===== src/Ws/StateCell/Invariant/Ledger.antt =====
-- auth/ws/state_cell/ledger.rs: well-formedness under an acknowledgement.
use rspm.Common.{
  ℕ, suc, ◌<◌, ◌≡◌, refl, inl, inr, Bool, true, false, List, ◌&&◌, ◌||◌, not, arith, length, leb,
  ltb, ◌==◌, Bool-cases, if_elim,
}
use rspm.Common.OrderedSet.{contains, insert, Ascending, insert-Ascending, length-insert}
use rspm.Ws.StateCell.{Cell, max_durable_out_of_order, publish, publish_poisoned, lock-cases}
use rspm.Ws.StateCell.Marks.{set_delivery_lost}
use rspm.Ws.StateCell.Ledger.{
  Advanced, reached, exhausted, out_of_fuel, write_advanced, insert_durable, acknowledge_durable,
}
use rspm.Ws.StateCell.Durability.{IsFrontier, Reaches, advance_durable-Reaches}
use rspm.Ws.StateCell.Progress.Operations.{Effect, Effect-refl, publish_poisoned-Effect}
use rspm.Ws.StateCell.Invariant.{IsValid}
use rspm.Ws.StateCell.Invariant.Operations.{publish_poisoned-IsValid}
use rspm.Ws.StateCell.Invariant.Dropped.{closed_consumer-IsValid}

-- The set after an insertion is well formed, and longer by one at most.
inserted-Ascending :
    (sequence : ℕ) (c : Cell)
    → IsValid c
    → 0 < sequence
    → Ascending 1 (insert sequence c.durable_out_of_order)
inserted-Ascending sequence c v pos =
    insert-Ascending sequence 1 c.durable_out_of_order pos v.ascending

-- An acknowledgement for which there is room.
abbrev HasRoom : ℕ → Cell → Type 0
HasRoom sequence c =
    (leb max_durable_out_of_order (length c.durable_out_of_order)
      && not (contains sequence c.durable_out_of_order))
    ≡ false

-- The cell at a new frontier.
abbrev pub at_frontier : Cell → ℕ → List ℕ → Cell
at_frontier c durable rest = publish (record c {
  state = record c.state { durable_sequence = durable };
  durable_out_of_order = rest;
})

-- The loop reaches the frontier of the set with the new sequence, and is never out of fuel.
pub insert_durable_reached :
    (sequence : ℕ) (c : Cell)
    → IsValid c
    → 0 < sequence
    → HasRoom sequence c
    → (durable : ℕ) × (rest : List ℕ) × (insert_durable sequence c
        ≡ (at_frontier c durable rest, true))
      × IsFrontier c.state.transport_sequence c.state.durable_sequence
          (insert sequence c.durable_out_of_order)
          durable
          rest
unfolding insert_durable write_advanced
insert_durable_reached sequence c v pos room =
    rw (room, insert_durable)
      (written _ (
        advance_durable-Reaches (suc (length inserted)) c.state.transport_sequence
          c.state.durable_sequence inserted (inserted-Ascending sequence c v pos) (omega arith)
          v.valid_state.transport_fits))
  where
    inserted : List ℕ
    inserted = insert sequence c.durable_out_of_order

    written :
        (r : Advanced)
        → Reaches c.state.transport_sequence c.state.durable_sequence inserted r
        → (durable : ℕ) × (rest : List ℕ) × (write_advanced r c
            ≡ (at_frontier c durable rest, true))
          × IsFrontier c.state.transport_sequence c.state.durable_sequence inserted durable rest
    written (reached durable rest) f = (durable, rest, refl, f)
    written (exhausted durable rest) f = absurd f
    written out_of_fuel f = absurd f

frontier-IsValid :
    (sequence durable : ℕ) (rest : List ℕ) (c : Cell)
    → IsValid c
    → 0 < sequence
    → HasRoom sequence c
    → IsFrontier c.state.transport_sequence c.state.durable_sequence
        (insert sequence c.durable_out_of_order)
        durable
        rest
    → IsValid (at_frontier c durable rest)
frontier-IsValid sequence durable rest c v pos room f =
    let grown = length-insert sequence 1 c.durable_out_of_order v.ascending in
    record {
      valid_state = ground (arith, v.valid_state, f.bounded v.valid_state.durable_le);
      ascending = f.ascending;
      set_capped = ground (arith, f.shorter, grown, room, v.set_capped);
      ranges = v.ranges;
      ranges_capped = v.ranges_capped;
      keyed = v.keyed;
      counted = v.counted;
      poison_agrees = v.poison_agrees;
      published = refl;
    }

closed_consumer-Effect :
    (c : Cell)
    → Effect c (
        publish
          (record c { state = set_delivery_lost (record c.state { consumer_closed = true }) }))
unfolding set_delivery_lost
closed_consumer-Effect c = ground arith

pub insert_durable_full :
    (sequence : ℕ) (c : Cell)
    → (leb max_durable_out_of_order (length c.durable_out_of_order)
        && not (contains sequence c.durable_out_of_order))
      ≡ true
    → insert_durable sequence c ≡ (
      publish (record c { state = set_delivery_lost (record c.state { consumer_closed = true }) }),
      false,
    )
unfolding insert_durable
insert_durable_full sequence c full = rw (full, insert_durable)

abbrev pub KeepsBoth : Cell → Cell × Bool → Type 0
KeepsBoth c r = IsValid r.0 × Effect c r.0

insert_durable-KeepsBoth :
    (sequence : ℕ) (c : Cell) → IsValid c → 0 < sequence → KeepsBoth c (insert_durable sequence c)
insert_durable-KeepsBoth sequence c v pos =
    elim (Bool-cases (
      leb max_durable_out_of_order (length c.durable_out_of_order)
      && not (contains sequence c.durable_out_of_order))) [
        | inl full ↦
            rw (insert_durable_full sequence c full)
              (closed_consumer-IsValid c v, closed_consumer-Effect c)
        | inr room ↦
            let (durable, rest, e, f) = insert_durable_reached sequence c v pos room in
            rw e (frontier-IsValid sequence durable rest c v pos room f, ground (arith, f.grows))
      ]

-- An acknowledgement keeps the cell well formed and every counter, flag and gap.
pub acknowledge_durable-KeepsBoth :
    (sequence : ℕ) (c : Cell) → IsValid c → KeepsBoth c (acknowledge_durable sequence c)
unfolding acknowledge_durable
acknowledge_durable-KeepsBoth sequence c v = elim (lock-cases c) [
  | inl e ↦ rw e closed
  | inr (e, _, _) ↦ rw e (
      if_elim (KeepsBoth c) (sequence == 0 || ltb c.state.transport_sequence sequence) (λ _. kept)
        (λ inside.
          if_elim (KeepsBoth c) (leb sequence c.state.durable_sequence) (λ _. kept)
            (λ _.
              if_elim (KeepsBoth c) c.durable_mutex (λ _. closed)
                (λ _. insert_durable-KeepsBoth sequence c v (ground arith)))))
]
  where
    closed : IsValid (publish_poisoned c) × Effect c (publish_poisoned c)
    closed = (publish_poisoned-IsValid c v, publish_poisoned-Effect c)

    kept : IsValid c × Effect c c
    kept = (v, Effect-refl c)
