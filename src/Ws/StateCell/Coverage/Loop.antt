-- ===== src/Ws/StateCell/Coverage/Loop.antt =====
-- auth/ws/state_cell/recovery.rs: the rounds of the loop of the preparation.
use rspm.Common.{
  ℕ, zero, suc, ◌+◌, ◌≤◌, ◌<◌, ◌≡◌, inl, inr, true, false, some, List, [], ◌∷◌, arith, min, length,
  ltb, leb, checked_add, u64_max, Bool-cases,
}
use rspm.Common.OrderedSet.{contains, remove, Ascending, remove-Ascending, length-remove}
use rspm.Ws.StateCell.Recovery.{settled, cover}
use rspm.Ws.StateCell.Coverage.{
  RangesWithin, RangesWithin-mono, Covers, in_ranges_below, stay, over_durable, over_range,
  past_range,
}

module _ (fuel watermark durable : ℕ) (set : List ℕ) where
  round_done :
      (dropped : List (ℕ × ℕ))
      → leb watermark durable ≡ true
      → cover (suc fuel) watermark durable set dropped ≡ settled durable set dropped
  unfolding cover
  round_done dropped h = ground arith

  module _ (more : leb watermark durable ≡ false)
      (next : checked_add durable 1 ≡ some (suc durable)) where
    round_durable :
        (dropped : List (ℕ × ℕ))
        → contains (suc durable) set ≡ true
        → cover (suc fuel) watermark durable set dropped
          ≡ cover fuel watermark (suc durable) (remove (suc durable) set) dropped
    unfolding cover
    round_durable dropped hit = ground arith

    round_none :
        contains (suc durable) set ≡ false
        → cover (suc fuel) watermark durable set [] ≡ settled durable set []
    unfolding cover
    round_none miss = ground arith

    module _ (first last : ℕ) (rest : List (ℕ × ℕ))
        (miss : contains (suc durable) set ≡ false) where
      round_break :
          ltb (suc durable) first ≡ true
          → cover (suc fuel) watermark durable set ((first, last) ∷ rest)
            ≡ settled durable set ((first, last) ∷ rest)
      unfolding cover
      round_break h = ground arith

      round_range :
          ltb (suc durable) first ≡ false
          → leb (suc durable) last ≡ true
          → cover (suc fuel) watermark durable set ((first, last) ∷ rest)
            ≡ cover fuel watermark (min last watermark) set rest
      unfolding cover
      round_range h k = ground arith

      round_past :
          ltb (suc durable) first ≡ false
          → leb (suc durable) last ≡ false
          → cover (suc fuel) watermark durable set ((first, last) ∷ rest)
            ≡ cover fuel watermark durable set rest
      unfolding cover
      round_past h k = ground arith

-- The rounds that are left cover whatever set and ranges have fewer elements.
abbrev CoversBelow : ℕ → ℕ → ℕ → ℕ → Type 0
CoversBelow fuel hi watermark n =
    (durable : ℕ) (set : List ℕ) (dropped : List (ℕ × ℕ))
    → Ascending 1 set
    → RangesWithin 1 hi dropped
    → length set + length dropped < n
    → Covers hi watermark durable set dropped (cover fuel watermark durable set dropped)

-- A round whose next sequence is not durable.
cover-Covers-miss :
    (fuel hi watermark durable : ℕ) (set : List ℕ) (dropped : List (ℕ × ℕ))
    → Ascending 1 set
    → leb watermark durable ≡ false
    → checked_add durable 1 ≡ some (suc durable)
    → contains (suc durable) set ≡ false
    → RangesWithin 1 hi dropped
    → CoversBelow fuel hi watermark (length set + length dropped)
    → Covers hi watermark durable set dropped (cover (suc fuel) watermark durable set dropped)
cover-Covers-miss fuel hi watermark durable set [] a more next miss r ih =
    rw (round_none fuel watermark durable set more next miss)
      (stay hi watermark durable set a [] tt (λ all. ground (arith, all (suc durable))))
cover-Covers-miss fuel hi watermark durable set ((first, last) ∷ rest) a more next miss r ih =
    elim (Bool-cases (ltb (suc durable) first)) [
      | inl before ↦
          rw (round_break fuel watermark durable set more next first last rest miss before) (
            stay hi watermark durable set a _ r (λ all. ground (
              arith,
              all (suc durable),
              in_ranges_below (suc durable) first hi ((first, last) ∷ rest),
            )))
      | inr reached ↦ elim (Bool-cases (leb (suc durable) last)) [
        | inl inside ↦
            rw
              (round_range fuel watermark durable set more next first last rest miss reached inside)
              (over_range hi watermark durable set a first last rest _ (ground arith) (ground arith)
                (ground arith)
                (ih (min last watermark) set rest a
                  (RangesWithin-mono 1 (suc last) hi hi rest (omega arith) (omega arith) r.3)
                  (omega arith)))
        | inr behind ↦
            rw (round_past fuel watermark durable set more next first last rest miss reached behind)
              (past_range hi watermark durable set a first last rest _ (ground arith) (
                ih durable set rest a
                  (RangesWithin-mono 1 (suc last) hi hi rest (omega arith) (omega arith) r.3)
                  (omega arith)))
      ]
    ]

-- A round before the watermark.
cover-Covers-round :
    (fuel hi watermark durable : ℕ) (set : List ℕ) (dropped : List (ℕ × ℕ))
    → Ascending 1 set
    → RangesWithin 1 hi dropped
    → watermark ≤ u64_max
    → leb watermark durable ≡ false
    → CoversBelow fuel hi watermark (length set + length dropped)
    → Covers hi watermark durable set dropped (cover (suc fuel) watermark durable set dropped)
cover-Covers-round fuel hi watermark durable set dropped a r b more ih =
    let next : checked_add durable 1 ≡ some (suc durable) = ground arith in
    elim (Bool-cases (contains (suc durable) set)) [
      | inl hit ↦ rw (round_durable fuel watermark durable set more next dropped hit) (
          over_durable hi watermark durable set a dropped _ (ground arith) hit (
            ih (suc durable) (remove (suc durable) set) dropped
              (remove-Ascending (suc durable) 1 set a) r
              (omega (arith, length-remove (suc durable) set hit))))
      | inr miss ↦ cover-Covers-miss fuel hi watermark durable set dropped a more next miss r ih
    ]

pub cover-Covers :
    (fuel hi watermark durable : ℕ) (set : List ℕ) (dropped : List (ℕ × ℕ))
    → Ascending 1 set
    → RangesWithin 1 hi dropped
    → watermark ≤ u64_max
    → length set + length dropped < fuel
    → Covers hi watermark durable set dropped (cover fuel watermark durable set dropped)
cover-Covers zero hi watermark durable set dropped a r b h = absurd (omega arith)
cover-Covers (suc fuel) hi watermark durable set dropped a r b h =
    elim (Bool-cases (leb watermark durable)) [
      | inl done ↦
          rw (round_done fuel watermark durable set dropped done)
            (stay hi watermark durable set a dropped r (λ all. ground arith))
      | inr more ↦
          cover-Covers-round fuel hi watermark durable set dropped a r b more
            (λ durable' set' dropped' a' r' h'.
              cover-Covers fuel hi watermark durable' set' dropped' a' r' b (omega arith))
    ]
