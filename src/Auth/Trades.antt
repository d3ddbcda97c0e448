-- ===== src/Auth/Trades.antt =====
-- auth/trades.rs: the strict decoding of a page of the trade history. JSON with its field
-- deserializers is a parameter, and so is the digest of a body. Timestamps are canonical unsigned
-- texts on the wire, so that the numbers are natural.
pub mod Pages
pub mod Paths
pub mod Refusals
use rspm.Common.{
  ℕ, suc, Bool, true, false, not, ◌&&◌, ◌||◌, Option, none, some, List, [], ◌∷◌, ◌++◌, length,
  if◌then◌else◌, codes,
}
use rspm.Utils.{to_string}
use rspm.Auth.{
  Endpoint, EndpointError, Result, ok, err, ◌>>=◌, trades, response_schema_decode,
  with_response_digest,
}
use rspm.Auth.Schema.{Decimals, VenueSide, venue_identifier_is_valid, validate_page}

pub data TraderSide : Type 0 where
  taker maker : TraderSide

pub data TradeStatus : Type 0 where
  matched_not_broadcasted matched mined confirmed retrying failed : TradeStatus

-- The wire record and the record of evidence have the same fields.
pub record MakerOrder (Decimal : Type 0) : Type 0 where
  pub order_id : List ℕ
  pub owner : ℕ
  pub maker_address : ℕ
  pub matched_amount : Decimal
  pub price : Decimal
  pub fee_rate_bps : Option Decimal
  pub fee_usdc : Option Decimal
  pub asset_id : ℕ
  pub outcome : List ℕ
  pub side : VenueSide

pub record Trade (Decimal : Type 0) : Type 0 where
  pub id : List ℕ
  pub taker_order_id : List ℕ
  pub market : ℕ
  pub asset_id : ℕ
  pub side : VenueSide
  pub size : Decimal
  pub fee_rate_bps : Decimal
  pub fee_usdc : Option Decimal
  pub price : Decimal
  pub status : TradeStatus
  pub match_time : ℕ
  pub last_update : ℕ
  pub outcome : List ℕ
  pub bucket_index : ℕ
  pub owner : ℕ
  pub maker_address : ℕ
  pub maker_orders : List (MakerOrder Decimal)
  pub transaction_hash : ℕ
  pub trader_side : TraderSide
  pub error_msg : Option (List ℕ)

pub record TradePage (Decimal : Type 0) : Type 0 where
  pub trades : List (Trade Decimal)
  pub next_cursor : List ℕ
  pub limit : ℕ
  pub count : ℕ

-- `data[i].field` and `data[i].maker_orders[j].field`.
unfoldable pub indexed_trade_path : ℕ → List ℕ → List ℕ
indexed_trade_path trade_index field =
    codes "data[" ++ (to_string trade_index ++ (codes "]." ++ field))

unfoldable pub indexed_maker_path : ℕ → ℕ → List ℕ → List ℕ
indexed_maker_path trade_index maker_index field =
    codes "data["
    ++ (to_string trade_index
        ++ (codes "].maker_orders[" ++ (to_string maker_index ++ (codes "]." ++ field))))

unfoldable pub indexed_trade_schema_error : ℕ → List ℕ → EndpointError
unfolding indexed_trade_path
indexed_trade_schema_error trade_index field =
    response_schema_decode trades (indexed_trade_path trade_index field)

unfoldable pub indexed_maker_schema_error : ℕ → ℕ → List ℕ → EndpointError
unfolding indexed_maker_path
indexed_maker_schema_error trade_index maker_index field =
    response_schema_decode trades (indexed_maker_path trade_index maker_index field)

module _ {Decimal : Type 0} (decimals : Decimals Decimal) where
  abbrev pub is_negative : Decimal → Bool
  is_negative d = decimals.lt d decimals.zero

  abbrev pub is_some_negative : Option Decimal → Bool
  is_some_negative none = false
  is_some_negative (some d) = is_negative d

  abbrev pub price_is_out_of_range : Decimal → Bool
  price_is_out_of_range price = is_negative price || decimals.lt decimals.one price

  unfoldable pub invalid_maker_field : MakerOrder Decimal → Option (List ℕ)
  invalid_maker_field order =
      if not (venue_identifier_is_valid order.order_id)
      then some (codes "order_id")
      else if is_negative order.matched_amount
      then some (codes "matched_amount")
      else if price_is_out_of_range order.price
      then some (codes "price")
      else if is_some_negative order.fee_rate_bps
      then some (codes "fee_rate_bps")
      else if is_some_negative order.fee_usdc
      then some (codes "fee_usdc")
      else none

  -- `try_from_wire` copies the fields.
  unfoldable pub maker_try_from_wire : ℕ → ℕ → MakerOrder Decimal → Result (MakerOrder Decimal)
  maker_try_from_wire trade_index maker_index order = elim (invalid_maker_field order) [
    | some field ↦ err (indexed_maker_schema_error trade_index maker_index field)
    | none ↦ ok order
  ]

  -- `enumerate().map(…).collect()` from an index on.
  unfoldable pub makers_try_from_wire :
      ℕ → ℕ → List (MakerOrder Decimal) → Result (List (MakerOrder Decimal))
  makers_try_from_wire trade_index maker_index [] = ok []
  makers_try_from_wire trade_index maker_index (order ∷ orders) = do
    first ← maker_try_from_wire trade_index maker_index order
    rest ← makers_try_from_wire trade_index (suc maker_index) orders
    ok (first ∷ rest)

  unfoldable pub invalid_trade_field : Trade Decimal → Option (List ℕ)
  invalid_trade_field trade =
      if not (venue_identifier_is_valid trade.id)
      then some (codes "id")
      else if not (venue_identifier_is_valid trade.taker_order_id)
      then some (codes "taker_order_id")
      else if is_negative trade.size
      then some (codes "size")
      else if price_is_out_of_range trade.price
      then some (codes "price")
      else if is_negative trade.fee_rate_bps
      then some (codes "fee_rate_bps")
      else if is_some_negative trade.fee_usdc
      then some (codes "fee_usdc")
      else none

  unfoldable pub trade_try_from_wire : ℕ → Trade Decimal → Result (Trade Decimal)
  trade_try_from_wire trade_index trade = elim (invalid_trade_field trade) [
    | some field ↦ err (indexed_trade_schema_error trade_index field)
    | none ↦ (do
      maker_orders ← makers_try_from_wire trade_index 0 trade.maker_orders
      ok (record trade { maker_orders = maker_orders }))
  ]

  unfoldable pub trades_try_from_wire : ℕ → List (Trade Decimal) → Result (List (Trade Decimal))
  trades_try_from_wire trade_index [] = ok []
  trades_try_from_wire trade_index (trade ∷ more) = do
    converted ← trade_try_from_wire trade_index trade
    rest ← trades_try_from_wire (suc trade_index) more
    ok (converted ∷ rest)

  -- The body of the closure, after the JSON.
  unfoldable pub decode_trade_page : TradePage Decimal → Result (TradePage Decimal)
  decode_trade_page page = do
    valid ← validate_page trades (length page.trades) page.count page.limit page.next_cursor
    converted ← trades_try_from_wire 0 page.trades
    ok (record page { trades = converted })

-- `map_err` with the digest of the body.
unfoldable pub map_err {ℓ} : {A : Type ℓ} → (EndpointError → EndpointError) → Result A → Result A
map_err f (ok a) = ok a
map_err f (err e) = err (f e)

module _ {Decimal : Type 0} (decimals : Decimals Decimal) (sha256 : List ℕ → ℕ)
    (deserialize : List ℕ → Result (TradePage Decimal)) where
  unfoldable pub decode_json : List ℕ → Result (TradePage Decimal)
  unfolding map_err
  decode_json body =
      map_err (with_response_digest sha256 body)
        (do page ← deserialize body; decode_trade_page decimals page)
