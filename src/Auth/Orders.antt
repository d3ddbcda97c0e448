-- ===== src/Auth/Orders.antt =====
-- auth/orders.rs: the inventory of orders. JSON is a parameter: `IntegerWire` is the number of a
-- timestamp. The text of a query is not modelled, its guards are.
pub mod Pages
pub mod Examples
use rspm.Common.{
  ℕ, Bool, true, false, not, ◌&&◌, ◌||◌, ◌==◌, Option, none, some, List, [], ◌∷◌, ◌++◌, length,
  if◌then◌else◌, codes, text_eq, all,
}
use rspm.Auth.{Endpoint, Result, ok, err, ◌>>=◌, order, reject_if, request_failed}
use rspm.Auth.Schema.{
  Decimals, VenueSide, cursor_is_valid, validate_page, venue_identifier_is_valid,
}

pub data OrderStatus : Type 0 where
  live invalid canceled_market_resolved canceled matched delayed unmatched : OrderStatus

-- An `i64`: `below n` is -(n + 1).
pub data Seconds : Type 0 where
  seconds below : ℕ → Seconds

abbrev pub is_below : Seconds → Bool
is_below (seconds n) = false
is_below (below n) = true

-- The wire record and the order have the same fields.
pub record Order (Decimal : Type 0) : Type 0 where
  pub id : List ℕ
  pub status : OrderStatus
  pub owner : ℕ
  pub maker_address : ℕ
  pub market : ℕ
  pub asset_id : ℕ
  pub side : VenueSide
  pub original_size : Decimal
  pub size_matched : Decimal
  pub price : Decimal
  pub created_at : Seconds
  pub expiration : Seconds
  pub associate_trades : List (List ℕ)
  pub outcome : List ℕ
  pub order_type : List ℕ

-- `orders` is the field `data`.
pub record OrderPage (Decimal : Type 0) : Type 0 where
  pub orders : List (Order Decimal)
  pub next_cursor : List ℕ
  pub limit : ℕ
  pub count : ℕ

pub record OrdersRequest : Type 0 where
  pub order_id : Option (List ℕ)
  pub market : Option ℕ
  pub asset_id : Option ℕ

abbrev pub is_some_and : (List ℕ → Bool) → Option (List ℕ) → Bool
is_some_and test none = false
is_some_and test (some value) = test value

-- The guards of `query`.
unfoldable pub query_is_refused : OrdersRequest → Option (List ℕ) → Bool
query_is_refused request next_cursor =
    is_some_and (λ value. not (venue_identifier_is_valid value)) request.order_id
    || is_some_and (λ value. not (cursor_is_valid value)) next_cursor

unfoldable pub authenticated_order_path : List ℕ → Result (List ℕ)
authenticated_order_path order_id =
    if not (venue_identifier_is_valid order_id)
    then err (request_failed order)
    else ok (codes "/data/order/" ++ order_id)

module _ {Decimal : Type 0} (decimals : Decimals Decimal) where
  unfoldable pub order_is_valid : Order Decimal → Bool
  order_is_valid o =
      venue_identifier_is_valid o.id
      && not (is_below o.created_at)
      && not (is_below o.expiration)
      && decimals.lt decimals.zero o.original_size
      && not (decimals.lt o.size_matched decimals.zero)
      && not (decimals.lt o.original_size o.size_matched)
      && decimals.lt decimals.zero o.price
      && not (decimals.lt decimals.one o.price)
      && all venue_identifier_is_valid o.associate_trades
      && not (length o.outcome == 0)
      && not (length o.order_type == 0)

  -- `try_from` copies the fields.
  unfoldable pub order_try_from : Order Decimal → Result (Order Decimal)
  unfolding order_is_valid
  order_try_from o = if not (order_is_valid o) then err (request_failed order) else ok o

  unfoldable pub orders_try_from : List (Order Decimal) → Result (List (Order Decimal))
  orders_try_from [] = ok []
  orders_try_from (o ∷ more) = do
    first ← order_try_from o
    rest ← orders_try_from more
    ok (first ∷ rest)

  -- `AuthenticatedOrderPage::decode_json` after the JSON.
  unfoldable pub decode_order_page : OrderPage Decimal → Result (OrderPage Decimal)
  decode_order_page wire = do
    valid ← validate_page order (length wire.orders) wire.count wire.limit wire.next_cursor
    converted ← orders_try_from wire.orders
    ok (record wire { orders = converted })

  module _ (get : List ℕ → Result (List ℕ)) where
    unfoldable pub fetch_one : (List ℕ → Result (Order Decimal)) → List ℕ → Result (Order Decimal)
    unfolding authenticated_order_path
    fetch_one deserialize order_id = do
      path ← authenticated_order_path order_id
      body ← get path
      wire ← deserialize body
      found ← order_try_from wire
      (if not (text_eq found.id order_id) then err (request_failed order) else ok found)

    -- `query` with its text a parameter, the request with it, and the page.
    unfoldable pub fetch :
        (List ℕ → Result (OrderPage Decimal))
        → (OrdersRequest → Option (List ℕ) → List ℕ)
        → OrdersRequest
        → Option (List ℕ)
        → Result (OrderPage Decimal)
    unfolding query_is_refused
    fetch deserialize query request next_cursor =
        if query_is_refused request next_cursor then err (request_failed order) else (do
          body ← get (query request next_cursor)
          wire ← deserialize body
          decode_order_page wire)
