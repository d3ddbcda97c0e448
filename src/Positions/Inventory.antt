-- ===== src/Positions/Inventory.antt =====
-- clob/positions.rs: the positions that a fetch collects and sorts.
use rspm.Common.{
  subst, ◌∙◌, ℕ, zero, suc, ◌+◌, Bool, true, false, not, ◌&&◌, ◌||◌, ◌==◌, Option, some, List, [],
  ◌∷◌, length, ◌≡◌, inl, inr, refl, arith, if_elim, Bool-cases, Option-cases,
}
use rspm.Positions.{
  WirePosition, Parsers, PositionInventoryEntry, same_identity, has_identity, add_page, key_lt,
  insert_by_key, sort_by_key, decode_page, next_offset, Fetched, fetched, failed, out_of_fuel,
  fetch_from, fetch,
}
use rspm.Positions.Paging.{NextOffset-cases}

module _ {Decimal : Type 0} where
  -- Strictly ascending keys, the first not below a key.
  abbrev pub Above : PositionInventoryEntry Decimal → List (PositionInventoryEntry Decimal) → Type 0
  Above p [] = Unit {0}
  Above p (q ∷ positions) = (key_lt p q ≡ true) × Above q positions

  abbrev pub Sorted : List (PositionInventoryEntry Decimal) → Type 0
  Sorted [] = Unit {0}
  Sorted (p ∷ positions) = Above p positions

  abbrev pub Distinct : List (PositionInventoryEntry Decimal) → Type 0
  Distinct [] = Unit {0}
  Distinct (p ∷ positions) = (has_identity p positions ≡ false) × Distinct positions

  abbrev pub all_of : ℕ → List (PositionInventoryEntry Decimal) → Bool
  all_of wallet [] = true
  all_of wallet (p ∷ positions) = p.proxy_wallet == wallet && all_of wallet positions

  add_page_lem :
      (wallet : ℕ) (page positions more : List (PositionInventoryEntry Decimal))
      → Distinct positions
      → all_of wallet positions ≡ true
      → add_page wallet page positions ≡ some more
      → Distinct more × (all_of wallet more ≡ true) × (length more ≡ length page + length positions)
  unfolding add_page
  add_page_lem wallet [] positions more d a h = ground arith
  add_page_lem wallet (p ∷ page) positions more d a h =
      elim (Bool-cases (not (p.proxy_wallet == wallet) || has_identity p positions)) [
        | inl refused ↦ absurd (ground (arith, refused))
        | inr accepted ↦
            let (d', a', n) =
              add_page_lem wallet page (p ∷ positions) more (ground (arith, accepted), d)
                (ground (arith, accepted, a)) (ground (arith, accepted)) in
            (d', a', omega (arith, n))
      ]

  -- Two keys that are not the same stand in one order or the other.
  key_total :
      (p q : PositionInventoryEntry Decimal)
      → same_identity p q ≡ false
      → key_lt p q ≡ false
      → key_lt q p ≡ true
  key_total p q h k = ground arith

  insert_by_key-Above :
      (r p : PositionInventoryEntry Decimal) (positions : List (PositionInventoryEntry Decimal))
      → key_lt r p ≡ true
      → has_identity p positions ≡ false
      → Above r positions
      → Above r (insert_by_key p positions)
  insert_by_key-Above r p [] lt h a = (lt, tt)
  insert_by_key-Above r p (q ∷ positions) lt h a =
      if_elim (Above r) (key_lt p q) (λ below. (lt, (below, a.1)))
        (λ above. (
          a.0,
          insert_by_key-Above q p positions (key_total p q (ground (arith, h)) above)
              (ground (arith, h)) a.1,
        ))

  insert_by_key-Sorted :
      (p : PositionInventoryEntry Decimal) (positions : List (PositionInventoryEntry Decimal))
      → has_identity p positions ≡ false
      → Sorted positions
      → Sorted (insert_by_key p positions)
  insert_by_key-Sorted p [] h a = tt
  insert_by_key-Sorted p (q ∷ positions) h a =
      if_elim Sorted (key_lt p q) (λ below. (below, a))
        (λ above.
          insert_by_key-Above q p positions (key_total p q (ground (arith, h)) above)
            (ground (arith, h)) a)

  has_identity-insert :
      (r p : PositionInventoryEntry Decimal) (positions : List (PositionInventoryEntry Decimal))
      → has_identity r (insert_by_key p positions) ≡ (same_identity r p || has_identity r positions)
  has_identity-insert r p [] = refl
  has_identity-insert r p (q ∷ positions) =
      if_elim (λ l. has_identity r l ≡ (same_identity r p || has_identity r (q ∷ positions)))
        (key_lt p q) (λ _. refl) (λ _. ground (arith, has_identity-insert r p positions))

  has_identity-sort :
      (r : PositionInventoryEntry Decimal) (positions : List (PositionInventoryEntry Decimal))
      → has_identity r (sort_by_key positions) ≡ has_identity r positions
  has_identity-sort r [] = refl
  has_identity-sort r (p ∷ positions) =
      ground (arith, has_identity-insert r p (sort_by_key positions), has_identity-sort r positions)

  sort_by_key-Sorted :
      (positions : List (PositionInventoryEntry Decimal))
      → Distinct positions
      → Sorted (sort_by_key positions)
  sort_by_key-Sorted [] d = tt
  sort_by_key-Sorted (p ∷ positions) d =
      insert_by_key-Sorted p (sort_by_key positions)
        (ground (arith, has_identity-sort p positions, d.0)) (sort_by_key-Sorted positions d.1)

  all_of-insert :
      (wallet : ℕ) (p : PositionInventoryEntry Decimal)
      (positions : List (PositionInventoryEntry Decimal))
      → all_of wallet (insert_by_key p positions)
        ≡ (p.proxy_wallet == wallet && all_of wallet positions)
  all_of-insert wallet p [] = refl
  all_of-insert wallet p (q ∷ positions) =
      if_elim (λ l. all_of wallet l ≡ (p.proxy_wallet == wallet && all_of wallet (q ∷ positions)))
        (key_lt p q) (λ _. refl) (λ _. ground (arith, all_of-insert wallet p positions))

  all_of-sort :
      (wallet : ℕ) (positions : List (PositionInventoryEntry Decimal))
      → all_of wallet (sort_by_key positions) ≡ all_of wallet positions
  all_of-sort wallet [] = refl
  all_of-sort wallet (p ∷ positions) =
      ground (arith, all_of-insert wallet p (sort_by_key positions), all_of-sort wallet positions)

-- What the fetch promises where it yields positions.
abbrev Holds : {Decimal : Type 0} → ℕ → Fetched Decimal → Type 0
Holds wallet (fetched positions) = Sorted positions × (all_of wallet positions ≡ true)
Holds wallet failed = Unit {0}
Holds wallet out_of_fuel = Unit {0}

module _ {Decimal : Type 0} (parsers : Parsers Decimal) (respond : ℕ → Option (List WirePosition))
    (wallet : ℕ) where
  fetch_from-Holds :
      (fuel offset : ℕ) (positions : List (PositionInventoryEntry Decimal))
      → Distinct positions
      → all_of wallet positions ≡ true
      → Holds wallet (fetch_from parsers respond wallet fuel offset positions)
  unfolding fetch_from
  fetch_from-Holds zero offset positions d a = tt
  fetch_from-Holds (suc fuel) offset positions d a = elim (Option-cases (respond offset)) [
    | inl e ↦ rw (e, fetch_from) tt
    | inr (wire, e) ↦ elim (Option-cases (decode_page parsers wire)) [
      | inl f ↦ rw (e, f, fetch_from) tt
      | inr (page, f) ↦ elim (Option-cases (add_page wallet page positions)) [
        | inl r ↦ rw (e, f, r, fetch_from) tt
        | inr (more, r) ↦
            let (d', a', _) = add_page_lem wallet page positions more d a r in
            elim (NextOffset-cases (next_offset offset (length page))) [
              | inl n ↦
                  rw (e, f, r, n, fetch_from)
                    (sort_by_key-Sorted more d', all_of-sort wallet more ∙ a')
              | inr (inl n) ↦ rw (e, f, r, n, fetch_from) tt
              | inr (inr (next, n)) ↦
                  rw (e, f, r, n, fetch_from) (fetch_from-Holds fuel next more d' a')
            ]
      ]
    ]
  ]

  -- The positions that a fetch yields belong to the wallet and stand in strictly ascending order of
  -- condition and asset, so that no identity comes twice.
  pub fetch_lem :
      (positions : List (PositionInventoryEntry Decimal))
      → fetch parsers respond wallet ≡ fetched positions
      → Sorted positions × (all_of wallet positions ≡ true)
  unfolding fetch
  fetch_lem positions h = subst (Holds wallet) h (fetch_from-Holds 21 0 [] tt refl)
