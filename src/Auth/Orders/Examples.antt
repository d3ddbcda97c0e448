-- ===== src/Auth/Orders/Examples.antt =====
-- An order that is fetched by its identifier, and a page with it.
use rspm.Common.{ℕ, ◌≡◌, refl, true, none, some, List, [], ◌∷◌, ltb, codes}
use rspm.Auth.{Result, ok, err, request_failed, order}
use rspm.Auth.Schema.{
  Decimals, buy, cursor_is_terminal, cursor_is_valid, page_is_refused, validate_page,
  venue_identifier_is_valid,
}
use rspm.Auth.Orders.{
  Order, OrderPage, live, seconds, below, authenticated_order_path, order_is_valid, order_try_from,
  orders_try_from, decode_order_page, fetch_one, query_is_refused,
}
use rspm.Auth.Orders.Pages.{IsOrder, fetch_one-ok}

abbrev decimals : Decimals ℕ
decimals = record { lt = ltb; zero = 100; one = 200 }

abbrev resting : Order ℕ
resting = record {
  id = codes "o-1";
  status = live;
  owner = 7;
  maker_address = 8;
  market = 4;
  asset_id = 5;
  side = buy;
  original_size = 400;
  size_matched = 150;
  price = 120;
  created_at = seconds 10;
  expiration = seconds 0;
  associate_trades = codes "t-1" ∷ [];
  outcome = codes "Yes";
  order_type = codes "GTC";
}

abbrev page : OrderPage ℕ
page = record { orders = resting ∷ []; next_cursor = codes "MTAw"; limit = 100; count = 1 }

test_decode : decode_order_page decimals page ≡ ok page
unfolding decode_order_page validate_page page_is_refused cursor_is_terminal cursor_is_valid
    orders_try_from order_try_from order_is_valid venue_identifier_is_valid
test_decode = refl

abbrev get : List ℕ → Result (List ℕ)
get path = ok path

abbrev deserialize : List ℕ → Result (Order ℕ)
deserialize body = ok resting

test_fetch_one : fetch_one decimals get deserialize (codes "o-1") ≡ ok resting
unfolding fetch_one authenticated_order_path order_try_from order_is_valid venue_identifier_is_valid
test_fetch_one = refl

test_other_order : fetch_one decimals get deserialize (codes "o-2") ≡ err (request_failed order)
unfolding fetch_one authenticated_order_path order_try_from order_is_valid venue_identifier_is_valid
test_other_order = refl

fetch_one-ok_example : (resting.id ≡ codes "o-1") × IsOrder decimals resting
fetch_one-ok_example = fetch_one-ok decimals get deserialize (codes "o-1") test_fetch_one

test_before_epoch :
    order_try_from decimals (record resting { created_at = below 0 }) ≡ err (request_failed order)
unfolding order_try_from order_is_valid venue_identifier_is_valid
test_before_epoch = refl

test_query :
    query_is_refused
      (record { order_id = some (codes "../x"); market = none; asset_id = none })
      none
    ≡ true
unfolding query_is_refused venue_identifier_is_valid
test_query = refl
