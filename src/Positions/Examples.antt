-- ===== src/Positions/Examples.antt =====
-- An inventory of two positions over decimals that are numbers.
use rspm.Common.{
  ℕ, ◌-◌, true, false, not, ◌==◌, leb, Option, none, some, List, [], ◌∷◌, ◌≡◌, refl, if◌then◌else◌,
}
use rspm.Ws.Frame.{try_from_all}
use rspm.Utils.{canonical_nonnegative_decimal_text}
use rspm.Positions.{
  WirePosition, Parsers, PositionInventoryEntry, next_offset, position_try_from, decode_page,
  add_page, fetched, fetch,
}
use rspm.Positions.Paging.{Ends, fetch-Ends}
use rspm.Positions.Inventory.{Sorted, all_of, fetch_lem}

-- A text of one digit or its first byte.
abbrev first_byte : List ℕ → Option ℕ
first_byte [] = none
first_byte (b ∷ bytes) = some (b - 48)

abbrev parsers : Parsers ℕ
parsers = record {
  address_from_str = first_byte;
  u256_from_str = first_byte;
  b256_from_str = first_byte;
  decimal_from_str_exact = first_byte;
  is_positive = λ d. not (d == 0);
  is_at_most_one = λ d. leb d 1;
}

abbrev wire : ℕ → WirePosition
wire condition = record {
  proxy_wallet = 55 ∷ [];
  asset = 53 ∷ [];
  condition_id = condition ∷ [];
  size = 57 ∷ [];
  avg_price = 49 ∷ [];
  slug = 97 ∷ [];
  outcome = 98 ∷ [];
  redeemable = false;
  mergeable = false;
}

abbrev respond : ℕ → Option (List WirePosition)
respond offset = if offset == 0 then some (wire 52 ∷ wire 51 ∷ []) else none

abbrev entry : ℕ → PositionInventoryEntry ℕ
entry condition = record {
  proxy_wallet = 7;
  asset = 5;
  condition_id = condition;
  size = 9;
  average_price = 1;
  slug = 97 ∷ [];
  outcome = 98 ∷ [];
  redeemable = false;
  mergeable = false;
}

test_fetch : fetch parsers respond 7 ≡ fetched (entry 3 ∷ entry 4 ∷ [])
unfolding fetch decode_page position_try_from canonical_nonnegative_decimal_text try_from_all
    add_page next_offset
test_fetch = refl

fetch_lem_example : Sorted (entry 3 ∷ entry 4 ∷ []) × (all_of 7 (entry 3 ∷ entry 4 ∷ []) ≡ true)
fetch_lem_example = fetch_lem parsers respond 7 (entry 3 ∷ entry 4 ∷ []) test_fetch

fetch-Ends_example : Ends (fetch parsers respond 7)
fetch-Ends_example = fetch-Ends parsers respond 7
