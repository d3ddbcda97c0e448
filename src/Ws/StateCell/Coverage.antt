-- ===== src/Ws/StateCell/Coverage.antt =====
-- auth/ws/state_cell/recovery.rs: the loop of the preparation against its specification.
pub mod Loop
use rspm.Common.{
  ℕ, zero, suc, ◌+◌, ◌≤◌, ◌<◌, ◌≡◌, refl, ◌⊎◌, inl, inr, Bool, true, false, not, ◌&&◌, ◌||◌, Option,
  none, some, List, [], ◌∷◌, arith, min, length, ltb, leb, ◌==◌, if◌then◌else◌, checked_add,
  u64_max, Bool-cases,
}
use rspm.Common.OrderedSet.{
  contains, remove, Ascending, contains-remove, remove-Ascending, length-remove,
}
use rspm.Ws.StateCell.Recovery.{Covered, settled, overflow, out_of_fuel, cover}

abbrev pub in_ranges : ℕ → List (ℕ × ℕ) → Bool
in_ranges z [] = false
in_ranges z ((first, last) ∷ rest) = (leb first z && leb z last) || in_ranges z rest

-- Ranges in ascending order, apart from one another, from `lo` to `hi`.
abbrev pub RangesWithin : ℕ → ℕ → List (ℕ × ℕ) → Type 0
RangesWithin lo hi [] = Unit {0}
RangesWithin lo hi ((first, last) ∷ rest) =
    (lo ≤ first) × (first ≤ last) × (last ≤ hi) × RangesWithin (suc last) hi rest

pub RangesWithin-mono :
    (lo lo' hi hi' : ℕ) (ranges : List (ℕ × ℕ))
    → lo ≤ lo'
    → hi' ≤ hi
    → RangesWithin lo' hi' ranges
    → RangesWithin lo hi ranges
RangesWithin-mono lo lo' hi hi' [] h k r = tt
RangesWithin-mono lo lo' hi hi' ((first, last) ∷ rest) h k r = (
  omega arith,
  r.1,
  omega arith,
  RangesWithin-mono (suc last) (suc last) hi hi' rest (omega arith) k r.3,
)

in_ranges_below :
    (z lo hi : ℕ) (ranges : List (ℕ × ℕ))
    → RangesWithin lo hi ranges
    → z < lo
    → in_ranges z ranges ≡ false
in_ranges_below z lo hi [] r h = refl
in_ranges_below z lo hi ((first, last) ∷ rest) r h =
    ground (arith, in_ranges_below z (suc last) hi rest r.3)

-- A sequence is accounted for if it is durable or lies in a dropped range.
abbrev pub accounted : ℕ → List ℕ → List (ℕ × ℕ) → Bool
accounted z set dropped = contains z set || in_ranges z dropped

-- From `durable`, the frontier moves to `durable'` over sequences that are accounted for, within
-- the watermark; it gets there if every sequence up to the watermark is accounted for.
pub record IsCover (hi watermark durable : ℕ) (set : List ℕ) (dropped : List (ℕ × ℕ)) (durable' : ℕ)
    (rest : List ℕ) (dropped' : List (ℕ × ℕ)) : Type 0 where
  pub grows : durable ≤ durable'
  pub bounded : durable ≤ watermark → durable' ≤ watermark
  pub covered : (z : ℕ) → durable < z → z ≤ durable' → accounted z set dropped ≡ true
  pub complete :
      ((z : ℕ) → durable < z → z ≤ watermark → accounted z set dropped ≡ true)
      → watermark ≤ durable'
  pub subset : (z : ℕ) → contains z rest ≡ true → contains z set ≡ true
  pub ascending : Ascending 1 rest
  pub shorter : length rest ≤ length set
  pub ranges : RangesWithin 1 hi dropped'
  pub fewer : length dropped' ≤ length dropped

abbrev pub Covers : ℕ → ℕ → ℕ → List ℕ → List (ℕ × ℕ) → Covered → Type 0
Covers hi watermark durable set dropped (settled durable' rest dropped') =
    IsCover hi watermark durable set dropped durable' rest dropped'
Covers hi watermark durable set dropped overflow = ⊥
Covers hi watermark durable set dropped out_of_fuel = ⊥

module _ (hi watermark durable : ℕ) (set : List ℕ) (a : Ascending 1 set) where
  stay :
      (dropped : List (ℕ × ℕ))
      → RangesWithin 1 hi dropped
      → (((z : ℕ) → durable < z → z ≤ watermark → accounted z set dropped ≡ true)
          → watermark ≤ durable)
      → IsCover hi watermark durable set dropped durable set dropped
  stay dropped r stop = record {
    grows = omega arith;
    bounded = λ h. h;
    covered = λ z lo up. absurd (omega arith);
    complete = stop;
    subset = λ z h. h;
    ascending = a;
    shorter = omega arith;
    ranges = r;
    fewer = omega arith;
  }

  -- The next sequence is durable.
  over_durable :
      (dropped : List (ℕ × ℕ)) (c : Covered)
      → durable < watermark
      → contains (suc durable) set ≡ true
      → Covers hi watermark (suc durable) (remove (suc durable) set) dropped c
      → Covers hi watermark durable set dropped c
  over_durable dropped (settled durable' rest dropped') lt hit f = record {
    grows = omega (arith, f.grows);
    bounded = λ h. f.bounded lt;
    covered = λ z lo up. ground (arith, f.covered z, contains-remove z (suc durable) 1 set a);
    complete = λ all.
        f.complete (λ z lo up. ground (arith, all z, contains-remove z (suc durable) 1 set a));
    subset = λ z h. ground (arith, f.subset z, contains-remove z (suc durable) 1 set a);
    ascending = f.ascending;
    shorter = omega (arith, f.shorter, length-remove (suc durable) set hit);
    ranges = f.ranges;
    fewer = f.fewer;
  }
  over_durable dropped overflow lt hit f = f
  over_durable dropped out_of_fuel lt hit f = f

  -- The next sequence lies in the first dropped range.
  over_range :
      (first last : ℕ) (dropped : List (ℕ × ℕ)) (c : Covered)
      → durable < watermark
      → first ≤ suc durable
      → suc durable ≤ last
      → Covers hi watermark (min last watermark) set dropped c
      → Covers hi watermark durable set ((first, last) ∷ dropped) c
  over_range first last dropped (settled durable' rest dropped') lt lo up f = record {
    grows = omega (arith, f.grows);
    bounded = λ h. f.bounded (omega arith);
    covered = λ z l u. ground (arith, f.covered z);
    complete = λ all. f.complete (λ z l u. ground (arith, all z));
    subset = f.subset;
    ascending = f.ascending;
    shorter = f.shorter;
    ranges = f.ranges;
    fewer = omega (arith, f.fewer);
  }
  over_range first last dropped overflow lt lo up f = f
  over_range first last dropped out_of_fuel lt lo up f = f

  -- The first dropped range lies behind the frontier.
  past_range :
      (first last : ℕ) (dropped : List (ℕ × ℕ)) (c : Covered)
      → last ≤ durable
      → Covers hi watermark durable set dropped c
      → Covers hi watermark durable set ((first, last) ∷ dropped) c
  past_range first last dropped (settled durable' rest dropped') le f = record {
    grows = f.grows;
    bounded = f.bounded;
    covered = λ z l u. ground (arith, f.covered z);
    complete = λ all. f.complete (λ z l u. ground (arith, all z));
    subset = f.subset;
    ascending = f.ascending;
    shorter = f.shorter;
    ranges = f.ranges;
    fewer = omega (arith, f.fewer);
  }
  past_range first last dropped overflow le f = f
  past_range first last dropped out_of_fuel le f = f
