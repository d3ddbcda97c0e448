-- ===== src/Auth/Examples.antt =====
-- A page of trades and a balance over decimals that are numbers: d is (d - 100) / 100.
use rspm.Common.{
  ℕ, ◌≤◌, ◌<◌, ◌≡◌, refl, true, false, none, some, List, [], ◌∷◌, length, All, ◌⊎◌, ltb, codes,
}
use rspm.Auth.{
  ok, err, safe_fields, class_of_status, server_error, trades, request_failed, indexes_are_valid,
  segment_is_safe, response_path_is_safe,
}
use rspm.Auth.Schema.{
  Decimals, buy, cursor_is_terminal, cursor_is_valid, max_page_limit, page_is_refused,
  validate_page, venue_identifier_is_valid,
}
use rspm.Auth.Trades.{
  MakerOrder, Trade, TradePage, confirmed, taker, invalid_maker_field, maker_try_from_wire,
  makers_try_from_wire, invalid_trade_field, trade_try_from_wire, trades_try_from_wire,
  decode_trade_page,
}
use rspm.Auth.Trades.Pages.{IsTrade, decode_trade_page-ok}
use rspm.Auth.Trades.Refusals.{decode_trade_page-first_maker}

abbrev decimals : Decimals ℕ
decimals = record { lt = ltb; zero = 100; one = 200 }

abbrev maker_leg : ℕ → MakerOrder ℕ
maker_leg price = record {
  order_id = codes "o-1";
  owner = 7;
  maker_address = 8;
  matched_amount = 300;
  price = price;
  fee_rate_bps = none;
  fee_usdc = none;
  asset_id = 5;
  outcome = codes "Yes";
  side = buy;
}

abbrev fill : ℕ → List (MakerOrder ℕ) → Trade ℕ
fill price maker_orders = record {
  id = codes "t-1";
  taker_order_id = codes "o-2";
  market = 4;
  asset_id = 5;
  side = buy;
  size = 300;
  fee_rate_bps = 100;
  fee_usdc = none;
  price = price;
  status = confirmed;
  match_time = 10;
  last_update = 11;
  outcome = codes "Yes";
  bucket_index = 0;
  owner = 7;
  maker_address = 8;
  maker_orders = maker_orders;
  transaction_hash = 9;
  trader_side = taker;
  error_msg = none;
}

abbrev page : List (Trade ℕ) → ℕ → TradePage ℕ
page ts count = record { trades = ts; next_cursor = codes "LTE="; limit = 100; count = count }

abbrev good : Trade ℕ
good = fill 150 (maker_leg 150 ∷ [])

test_decode : decode_trade_page decimals (page (good ∷ []) 1) ≡ ok (page (good ∷ []) 1)
unfolding decode_trade_page validate_page page_is_refused trades_try_from_wire trade_try_from_wire
    invalid_trade_field makers_try_from_wire maker_try_from_wire invalid_maker_field
    venue_identifier_is_valid cursor_is_terminal cursor_is_valid
test_decode = refl

decode_trade_page-ok_example :
    (page (good ∷ []) 1 ≡ page (good ∷ []) 1)
    × All (IsTrade decimals) (good ∷ [])
    × (1 ≡ length (good ∷ []))
    × (1 ≤ 100)
    × (100 ≤ max_page_limit)
    × ((0 < length (good ∷ [])) ⊎ (cursor_is_terminal (codes "LTE=") ≡ true))
decode_trade_page-ok_example = decode_trade_page-ok decimals (page (good ∷ []) 1) test_decode

-- The price of the second trade is above 1.
abbrev overpriced : TradePage ℕ
overpriced = page (good ∷ fill 201 [] ∷ []) 2

overpriced_envelope :
    page_is_refused
      (length overpriced.trades)
      overpriced.count
      overpriced.limit
      overpriced.next_cursor
    ≡ false
unfolding page_is_refused cursor_is_terminal cursor_is_valid
overpriced_envelope = refl

good_fill : All (IsTrade decimals) (good ∷ [])
unfolding venue_identifier_is_valid
good_fill = ((refl, refl, refl, refl, refl, refl, ((refl, refl, refl, refl, refl), tt)), tt)

overpriced_trade : invalid_trade_field decimals (fill 201 []) ≡ some (codes "price")
unfolding invalid_trade_field venue_identifier_is_valid
overpriced_trade = refl

-- The fee in USDC of the second maker leg of the second trade is negative.
abbrev rebate : MakerOrder ℕ
rebate = record (maker_leg 150) { fee_usdc = some 99 }

abbrev rebated : TradePage ℕ
rebated = page (good ∷ fill 150 (maker_leg 150 ∷ rebate ∷ []) ∷ []) 2

rebated_envelope :
    page_is_refused (length rebated.trades) rebated.count rebated.limit rebated.next_cursor ≡ false
unfolding page_is_refused cursor_is_terminal cursor_is_valid
rebated_envelope = refl

rebated_trade : invalid_trade_field decimals (fill 150 (maker_leg 150 ∷ rebate ∷ [])) ≡ none
unfolding invalid_trade_field venue_identifier_is_valid
rebated_trade = refl

rebated_maker : invalid_maker_field decimals rebate ≡ some (codes "fee_usdc")
unfolding invalid_maker_field venue_identifier_is_valid
rebated_maker = refl

decode_trade_page-first_maker_example :
    decode_trade_page decimals rebated ≡ err (request_failed trades)
decode_trade_page-first_maker_example =
    decode_trade_page-first_maker decimals rebated (good ∷ [])
      (fill 150 (maker_leg 150 ∷ rebate ∷ [])) [] (maker_leg 150 ∷ []) rebate [] rebated_envelope
      refl good_fill rebated_trade refl ((good_fill.0).6) rebated_maker

test_path : response_path_is_safe trades (codes "data[0].maker_orders[12].price") ≡ true
unfolding response_path_is_safe segment_is_safe safe_fields indexes_are_valid
test_path = refl

test_unsafe_path : response_path_is_safe trades (codes "data[0].secret") ≡ false
unfolding response_path_is_safe segment_is_safe safe_fields indexes_are_valid
test_unsafe_path = refl

test_class : class_of_status 503 ≡ server_error
unfolding class_of_status
test_class = refl
