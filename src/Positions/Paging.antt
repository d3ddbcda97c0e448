-- ===== src/Positions/Paging.antt =====
-- clob/positions.rs: the offsets and the end of the paged fetch.
use rspm.Common.{
  ℕ, zero, suc, ◌+◌, ◌*◌, ◌≤◌, ◌<◌, Option, List, [], length, ◌≡◌, ◌⊎◌, inl, inr, refl, arith,
  Option-cases,
}
use rspm.Positions.{
  WirePosition, Parsers, PositionInventoryEntry, NextOffset, last_page, past_end, next_page,
  next_offset, page_limit, max_offset, decode_page, add_page, Fetched, fetched, failed, out_of_fuel,
  fetch_from, fetch,
}

pub NextOffset-cases :
    (n : NextOffset) → (n ≡ last_page) ⊎ (n ≡ past_end) ⊎ ((next : ℕ) × (n ≡ next_page next))
NextOffset-cases last_page = inl refl
NextOffset-cases past_end = inr (inl refl)
NextOffset-cases (next_page next) = inr (inr (next, refl))

next_offset_lem :
    (offset page_len next : ℕ)
    → next_offset offset page_len ≡ next_page next
    → (next ≡ offset + page_limit) × (next ≤ max_offset) × (page_limit ≤ page_len)
unfolding next_offset
next_offset_lem offset page_len next h = ground arith

abbrev pub Ends : {Decimal : Type 0} → Fetched Decimal → Type 0
Ends (fetched positions) = Unit {0}
Ends failed = Unit {0}
Ends out_of_fuel = ⊥

module _ {Decimal : Type 0} (parsers : Parsers Decimal) (respond : ℕ → Option (List WirePosition))
    (wallet : ℕ) where
  fetch_from-Ends :
      (fuel offset : ℕ) (positions : List (PositionInventoryEntry Decimal))
      → max_offset < fuel * page_limit + offset
      → offset ≤ max_offset
      → Ends (fetch_from parsers respond wallet fuel offset positions)
  unfolding fetch_from
  fetch_from-Ends zero offset positions h k = absurd (omega arith)
  fetch_from-Ends (suc fuel) offset positions h k = elim (Option-cases (respond offset)) [
    | inl e ↦ rw (e, fetch_from) tt
    | inr (wire, e) ↦ elim (Option-cases (decode_page parsers wire)) [
      | inl d ↦ rw (e, d, fetch_from) tt
      | inr (page, d) ↦ elim (Option-cases (add_page wallet page positions)) [
        | inl a ↦ rw (e, d, a, fetch_from) tt
        | inr (more, a) ↦ elim (NextOffset-cases (next_offset offset (length page))) [
          | inl n ↦ rw (e, d, a, n, fetch_from) tt
          | inr (inl n) ↦ rw (e, d, a, n, fetch_from) tt
          | inr (inr (next, n)) ↦
              let (at, le, _) = next_offset_lem offset (length page) next n in
              rw (e, d, a, n, fetch_from) (fetch_from-Ends fuel next more (omega arith) le)
        ]
      ]
    ]
  ]

  -- Whatever the server responds, the fetch ends within its 21 pages.
  pub fetch-Ends : Ends (fetch parsers respond wallet)
  unfolding fetch
  fetch-Ends = fetch_from-Ends 21 0 [] (omega arith) (omega arith)
