-- ===== src/Positions.antt =====
-- clob/positions.rs. Texts are lists of bytes. The
-- parsers of addresses, hashes, integers and decimals and the type of decimals are parameters, and so
-- is the response to a request, with its JSON read.
pub mod Paging
pub mod Inventory
pub mod Examples
use rspm.Common.{
  ℕ, zero, suc, ◌+◌, Bool, true, false, not, ◌&&◌, ◌||◌, ◌==◌, Option, none, some, List, [], ◌∷◌,
  length, ltb, leb, if◌then◌else◌, checked_add, map, ◌>>=◌,
}
use rspm.Utils.{canonical_unsigned_integer_text, canonical_nonnegative_decimal_text}
use rspm.Ws.Frame.{try_from_all}

abbrev pub page_limit : ℕ
page_limit = 500

abbrev pub max_offset : ℕ
max_offset = 10000

pub record WirePosition : Type 0 where
  pub proxy_wallet : List ℕ
  pub asset : List ℕ
  pub condition_id : List ℕ
  pub size : List ℕ
  pub avg_price : List ℕ
  pub slug : List ℕ
  pub outcome : List ℕ
  pub redeemable : Bool
  pub mergeable : Bool

-- The third-party types: addresses, hashes and integers as numbers, and the decimals.
pub record Parsers (Decimal : Type 0) : Type 0 where
  pub address_from_str : List ℕ → Option ℕ
  pub u256_from_str : List ℕ → Option ℕ
  pub b256_from_str : List ℕ → Option ℕ
  pub decimal_from_str_exact : List ℕ → Option Decimal
  pub is_positive : Decimal → Bool
  pub is_at_most_one : Decimal → Bool

pub record PositionInventoryEntry (Decimal : Type 0) : Type 0 where
  pub proxy_wallet : ℕ
  pub asset : ℕ
  pub condition_id : ℕ
  pub size : Decimal
  pub average_price : Decimal
  pub slug : List ℕ
  pub outcome : List ℕ
  pub redeemable : Bool
  pub mergeable : Bool

-- The answer of `next_offset`.
pub data NextOffset : Type 0 where
  last_page past_end : NextOffset
  next_page : ℕ → NextOffset

unfoldable pub next_offset : ℕ → ℕ → NextOffset
next_offset offset page_len =
    if ltb page_len page_limit then last_page else elim (checked_add offset page_limit) [
      | none ↦ past_end
      | some next ↦ if ltb max_offset next then past_end else next_page next
    ]

module _ {Decimal : Type 0} (parsers : Parsers Decimal) where
  unfoldable pub exact_json_decimal : List ℕ → Option Decimal
  exact_json_decimal text =
      if canonical_nonnegative_decimal_text text then parsers.decimal_from_str_exact text else none

  -- The test on the parsed values.
  unfoldable pub is_out_of_bounds : Decimal → Decimal → WirePosition → Bool
  is_out_of_bounds size average_price w =
      not (parsers.is_positive size)
      || not (parsers.is_positive average_price)
      || not (parsers.is_at_most_one average_price)
      || length w.slug == 0
      || ltb 512 (length w.slug)
      || length w.outcome == 0
      || ltb 256 (length w.outcome)

  -- Every error of the conversion is `none`.
  unfoldable pub position_try_from : WirePosition → Option (PositionInventoryEntry Decimal)
  unfolding exact_json_decimal is_out_of_bounds
  position_try_from w = do
    proxy_wallet ← parsers.address_from_str w.proxy_wallet
    asset ← if canonical_unsigned_integer_text w.asset then parsers.u256_from_str w.asset else none
    condition_id ← parsers.b256_from_str w.condition_id
    size ← exact_json_decimal w.size
    average_price ← exact_json_decimal w.avg_price
    if is_out_of_bounds size average_price w
        then none
        else some (record {
          proxy_wallet = proxy_wallet;
          asset = asset;
          condition_id = condition_id;
          size = size;
          average_price = average_price;
          slug = w.slug;
          outcome = w.outcome;
          redeemable = w.redeemable;
          mergeable = w.mergeable;
        })

  unfoldable pub decode_page : List WirePosition → Option (List (PositionInventoryEntry Decimal))
  decode_page wire =
      if ltb page_limit (length wire) then none else try_from_all position_try_from wire

module _ {Decimal : Type 0} where
  abbrev pub same_identity : PositionInventoryEntry Decimal → PositionInventoryEntry Decimal → Bool
  same_identity a b = a.condition_id == b.condition_id && a.asset == b.asset

  -- Whether the set of identities, those of the positions so far, has this one.
  abbrev pub has_identity :
      PositionInventoryEntry Decimal → List (PositionInventoryEntry Decimal) → Bool
  has_identity p [] = false
  has_identity p (q ∷ positions) = same_identity p q || has_identity p positions

  -- The positions, the latest first, with a page; `none` for a foreign wallet or a repeated identity.
  unfoldable pub add_page :
      ℕ
      → List (PositionInventoryEntry Decimal)
      → List (PositionInventoryEntry Decimal)
      → Option (List (PositionInventoryEntry Decimal))
  add_page wallet [] positions = some positions
  add_page wallet (p ∷ page) positions =
      let rest = add_page wallet page (p ∷ positions) in
      if not (p.proxy_wallet == wallet) || has_identity p positions then none else rest

  abbrev pub key_lt : PositionInventoryEntry Decimal → PositionInventoryEntry Decimal → Bool
  key_lt a b =
      ltb a.condition_id b.condition_id || (a.condition_id == b.condition_id && ltb a.asset b.asset)

  -- `sort_by_key`.
  abbrev pub insert_by_key :
      PositionInventoryEntry Decimal
      → List (PositionInventoryEntry Decimal)
      → List (PositionInventoryEntry Decimal)
  insert_by_key p [] = p ∷ []
  insert_by_key p (q ∷ positions) =
      let rest = insert_by_key p positions in if key_lt p q then p ∷ q ∷ positions else q ∷ rest

  abbrev pub sort_by_key :
      List (PositionInventoryEntry Decimal) → List (PositionInventoryEntry Decimal)
  sort_by_key [] = []
  sort_by_key (p ∷ positions) = insert_by_key p (sort_by_key positions)

-- The end of the fetch.
pub data Fetched (Decimal : Type 0) : Type 0 where
  fetched : List (PositionInventoryEntry Decimal) → Fetched Decimal
  failed : Fetched Decimal
  out_of_fuel : Fetched Decimal

module _ {Decimal : Type 0} (parsers : Parsers Decimal) (respond : ℕ → Option (List WirePosition))
    (wallet : ℕ) where
  unfoldable pub fetch_from : ℕ → ℕ → List (PositionInventoryEntry Decimal) → Fetched Decimal
  fetch_from zero offset positions = out_of_fuel
  fetch_from (suc fuel) offset positions = elim (respond offset) [
    | none ↦ failed
    | some wire ↦ elim (decode_page parsers wire) [
      | none ↦ failed
      | some page ↦ elim (add_page wallet page positions) [
        | none ↦ failed
        | some more ↦ elim (next_offset offset (length page)) [
          | last_page ↦ fetched (sort_by_key more)
          | past_end ↦ failed
          | next_page next ↦ fetch_from fuel next more
        ]
      ]
    ]
  ]

  -- Offsets go from 0 to 10000 by 500.
  unfoldable pub fetch : Fetched Decimal
  unfolding fetch_from
  fetch = fetch_from 21 0 []
