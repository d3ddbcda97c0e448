-- ===== src/Ws/StateCell/Durability.antt =====
-- auth/ws/state_cell/ledger.rs: the loop of `acknowledge_durable` against its specification.
use rspm.Common.{
  ℕ, zero, suc, ◌≤◌, ◌<◌, ◌≡◌, inl, inr, true, false, ◌&&◌, ◌||◌, some, List, arith, length, ltb,
  leb, checked_add, u64_max, Bool-cases,
}
use rspm.Common.OrderedSet.{
  contains, remove, Ascending, contains-remove, remove-Ascending, length-remove,
}
use rspm.Ws.StateCell.Ledger.{Advanced, reached, exhausted, out_of_fuel, advance_durable}

-- From `durable`, the frontier moves to `durable'` over elements of the set, takes just those from
-- it, and stops at the transport sequence or before a sequence that is not in the set.
pub record IsFrontier (transport durable : ℕ) (set : List ℕ) (durable' : ℕ) (rest : List ℕ)
    : Type 0 where
  pub grows : durable ≤ durable'
  pub bounded : durable ≤ transport → durable' ≤ transport
  pub covered : (z : ℕ) → durable < z → z ≤ durable' → contains z set ≡ true
  pub taken : (z : ℕ) → contains z rest ≡ ((leb z durable || ltb durable' z) && contains z set)
  pub stops : durable' < transport → contains (suc durable') set ≡ false
  pub ascending : Ascending 1 rest
  pub shorter : length rest ≤ length set

abbrev pub Reaches : ℕ → ℕ → List ℕ → Advanced → Type 0
Reaches transport durable set (reached durable' rest) =
    IsFrontier transport durable set durable' rest
Reaches transport durable set (exhausted durable' rest) = ⊥
Reaches transport durable set out_of_fuel = ⊥

stay :
    (transport durable : ℕ) (set : List ℕ)
    → Ascending 1 set
    → ((durable < transport) → contains (suc durable) set ≡ false)
    → IsFrontier transport durable set durable set
stay transport durable set a stop = record {
  grows = omega arith;
  bounded = λ h. h;
  covered = λ z lo hi. absurd (omega arith);
  taken = λ z. ground arith;
  stops = stop;
  ascending = a;
  shorter = omega arith;
}

step :
    (transport durable durable' : ℕ) (set rest : List ℕ)
    → Ascending 1 set
    → durable < transport
    → contains (suc durable) set ≡ true
    → IsFrontier transport (suc durable) (remove (suc durable) set) durable' rest
    → IsFrontier transport durable set durable' rest
step transport durable durable' set rest a lt hit f = record {
  grows = omega (arith, f.grows);
  bounded = λ h. f.bounded lt;
  covered = λ z lo hi. ground (arith, f.covered z, contains-remove z (suc durable) 1 set a);
  taken = λ z. ground (arith, f.taken z, contains-remove z (suc durable) 1 set a, f.grows);
  stops =
      λ h. ground (arith, f.stops h, f.grows, contains-remove (suc durable') (suc durable) 1 set a);
  ascending = f.ascending;
  shorter = omega (arith, f.shorter, length-remove (suc durable) set hit);
}

step-Reaches :
    (transport durable : ℕ) (set : List ℕ) (r : Advanced)
    → Ascending 1 set
    → durable < transport
    → contains (suc durable) set ≡ true
    → Reaches transport (suc durable) (remove (suc durable) set) r
    → Reaches transport durable set r
step-Reaches transport durable set (reached durable' rest) a lt hit f =
    step transport durable durable' set rest a lt hit f
step-Reaches transport durable set (exhausted durable' rest) a lt hit f = f
step-Reaches transport durable set out_of_fuel a lt hit f = f

-- One round of the loop.
round_done :
    (fuel transport durable : ℕ) (set : List ℕ)
    → ltb durable transport ≡ false
    → advance_durable (suc fuel) transport durable set ≡ reached durable set
unfolding advance_durable
round_done fuel transport durable set h = ground arith

round_miss :
    (fuel transport durable : ℕ) (set : List ℕ)
    → checked_add durable 1 ≡ some (suc durable)
    → contains (suc durable) set ≡ false
    → advance_durable (suc fuel) transport durable set ≡ reached durable set
unfolding advance_durable
round_miss fuel transport durable set n miss = ground arith

round_hit :
    (fuel transport durable : ℕ) (set : List ℕ)
    → ltb durable transport ≡ true
    → checked_add durable 1 ≡ some (suc durable)
    → contains (suc durable) set ≡ true
    → advance_durable (suc fuel) transport durable set
      ≡ advance_durable fuel transport (suc durable) (remove (suc durable) set)
unfolding advance_durable
round_hit fuel transport durable set more n hit = ground arith

-- With more fuel than elements the loop ends at the frontier.
pub advance_durable-Reaches :
    (fuel transport durable : ℕ) (set : List ℕ)
    → Ascending 1 set
    → length set < fuel
    → transport ≤ u64_max
    → Reaches transport durable set (advance_durable fuel transport durable set)
advance_durable-Reaches zero transport durable set a h b = absurd (omega arith)
advance_durable-Reaches (suc fuel) transport durable set a h b =
    elim (Bool-cases (ltb durable transport)) [
      | inr done ↦
          rw (round_done fuel transport durable set done)
            (stay transport durable set a (λ lt. absurd (ground arith)))
      | inl more ↦
          let next : checked_add durable 1 ≡ some (suc durable) = ground arith in
          elim (Bool-cases (contains (suc durable) set)) [
            | inr miss ↦
                rw (round_miss fuel transport durable set next miss)
                  (stay transport durable set a (λ lt. miss))
            | inl hit ↦ rw (round_hit fuel transport durable set more next hit) (
                step-Reaches transport durable set _ a (ground arith) hit (
                  advance_durable-Reaches fuel transport (suc durable) (remove (suc durable) set)
                    (remove-Ascending (suc durable) 1 set a)
                    (omega (arith, length-remove (suc durable) set hit)) b))
          ]
    ]
