-- ===== src/Ws/Wire.antt =====
-- auth/ws/wire.rs: the conversion of a wire event, and the deserializers of its fields over the texts
-- and numbers that JSON yields. The only error of the conversion, `FrameSchema`, is `none`.
pub mod Fields
pub mod Conversion
pub mod Examples
use rspm.Common.{
  ℕ, ◌^◌, ◌-◌, Bool, true, false, not, ◌&&◌, ◌||◌, ◌==◌, Option, none, some, List, [], ◌∷◌, length,
  ltb, leb, if◌then◌else◌, ◌>>=◌, is_none, all,
}
use rspm.Utils.{canonical_unsigned_integer_text, canonical_nonnegative_decimal_text}
use rspm.Utils.Decimal.{value_from}
use rspm.Auth.Schema.{Decimals, VenueSide, venue_identifier_is_valid}
use rspm.Auth.Trades.{TraderSide}
use rspm.Ws.Frame.{try_from_all}
use rspm.Ws.Events.{
  TradeStatus, OrderType, OrderStatus, VenueOrderType, UserMakerOrder, UserTrade, UserOrder,
  UserEvent, trade, order,
}

pub data WireTradeType : Type 0 where
  trade_type : WireTradeType

-- The wire record of a maker order has the fields of the event.
pub record WireTrade (Decimal : Type 0) : Type 0 where
  pub id : List ℕ
  pub market : ℕ
  pub asset_id : ℕ
  pub side : VenueSide
  pub size : Decimal
  pub price : Decimal
  pub status : TradeStatus
  pub message_type : Option WireTradeType
  pub last_update : Option ℕ
  pub matchtime : Option ℕ
  pub timestamp : Option ℕ
  pub owner : Option ℕ
  pub trade_owner : Option ℕ
  pub taker_order_id : Option (List ℕ)
  pub maker_orders : List (UserMakerOrder Decimal)
  pub fee_rate_bps : Option Decimal
  pub fee_usdc : Option Decimal
  pub trader_side : Option TraderSide
  pub outcome : Option (List ℕ)
  pub maker_address : Option ℕ
  pub transaction_hash : Option ℕ
  pub bucket_index : Option ℕ

-- The wire record of an order has the fields of the event.
pub data WireUserEvent (Decimal : Type 0) : Type 0 where
  wire_trade : WireTrade Decimal → WireUserEvent Decimal
  wire_order : UserOrder Decimal → WireUserEvent Decimal

abbrev pub is_none_or {ℓ} : {A : Type ℓ} → (A → Bool) → Option A → Bool
is_none_or test none = true
is_none_or test (some a) = test a

abbrev is_ascii_whitespace : ℕ → Bool
is_ascii_whitespace b = b == 32 || (leb 9 b && leb b 13)

-- Where a byte is not ASCII the last test fails, so that only ASCII matters to the trim.
abbrev pub outcome_is_valid : List ℕ → Bool
outcome_is_valid value =
    not (all is_ascii_whitespace value)
    && leb (length value) 256
    && all (λ b. ltb b 128 && not (ltb b 32 || b == 127)) value

unfoldable pub optional_outcome_is_valid : Option (List ℕ) → Bool
optional_outcome_is_valid outcome = is_none_or outcome_is_valid outcome

module _ {Decimal : Type 0} (decimals : Decimals Decimal) where
  abbrev pub is_negative : Decimal → Bool
  is_negative d = decimals.lt d decimals.zero

  abbrev pub is_some_negative : Option Decimal → Bool
  is_some_negative none = false
  is_some_negative (some d) = is_negative d

  unfoldable pub maker_order_is_refused : UserMakerOrder Decimal → Bool
  maker_order_is_refused o =
      not (venue_identifier_is_valid o.order_id)
      || is_negative o.matched_amount
      || is_negative o.price
      || decimals.lt decimals.one o.price
      || is_some_negative o.fee_rate_bps
      || is_some_negative o.fee_usdc
      || not (optional_outcome_is_valid o.outcome)

  unfoldable pub maker_order_try_from : UserMakerOrder Decimal → Option (UserMakerOrder Decimal)
  unfolding maker_order_is_refused
  maker_order_try_from o = if maker_order_is_refused o then none else some o

  unfoldable pub trade_is_refused : WireTrade Decimal → Bool
  trade_is_refused t =
      not (venue_identifier_is_valid t.id)
      || not (is_none_or venue_identifier_is_valid t.taker_order_id)
      || is_negative t.size
      || is_negative t.price
      || decimals.lt decimals.one t.price
      || is_some_negative t.fee_rate_bps
      || is_some_negative t.fee_usdc
      || is_none t.message_type
      || not (optional_outcome_is_valid t.outcome)

  unfoldable pub trade_event : WireTrade Decimal → List (UserMakerOrder Decimal) → UserTrade Decimal
  trade_event t maker_orders = record {
    id = t.id;
    market = t.market;
    asset_id = t.asset_id;
    side = t.side;
    size = t.size;
    price = t.price;
    status = t.status;
    last_update = t.last_update;
    match_time = t.matchtime;
    timestamp = t.timestamp;
    owner = t.owner;
    trade_owner = t.trade_owner;
    taker_order_id = t.taker_order_id;
    maker_orders = maker_orders;
    outcome = t.outcome;
    maker_address = t.maker_address;
    transaction_hash = t.transaction_hash;
    bucket_index = t.bucket_index;
    fee_rate_bps = t.fee_rate_bps;
    fee_usdc = t.fee_usdc;
    trader_side = t.trader_side;
  }

  unfoldable pub trade_try_from : WireTrade Decimal → Option (UserTrade Decimal)
  unfolding trade_event
  trade_try_from t = if trade_is_refused t then none else (do
    maker_orders ← try_from_all maker_order_try_from t.maker_orders
    some (trade_event t maker_orders))

  -- Both sizes or none.
  unfoldable pub size_valid : Option Decimal → Option Decimal → Bool
  size_valid (some original) (some matched) =
      decimals.lt decimals.zero original
      && not (is_negative matched)
      && not (decimals.lt original matched)
  size_valid none none = true
  size_valid _ _ = false

  unfoldable pub order_is_refused : UserOrder Decimal → Bool
  order_is_refused o =
      not (venue_identifier_is_valid o.id)
      || not (decimals.lt decimals.zero o.price)
      || decimals.lt decimals.one o.price
      || not (size_valid o.original_size o.size_matched)
      || not (is_none_or (all venue_identifier_is_valid) o.associated_trades)
      || not (optional_outcome_is_valid o.outcome)

  unfoldable pub order_try_from : UserOrder Decimal → Option (UserOrder Decimal)
  unfolding order_is_refused
  order_try_from o = if order_is_refused o then none else some o

  unfoldable pub event_try_from : WireUserEvent Decimal → Option (UserEvent Decimal)
  event_try_from (wire_trade t) = do t' ← trade_try_from t; some (trade t')
  event_try_from (wire_order o) = do o' ← order_try_from o; some (order o')

-- `i64::MAX`.
abbrev pub i64_max : ℕ
i64_max = 9223372036854775807

-- `str::parse::<i64>` of a text of digits.
abbrev pub parse_i64 : List ℕ → Option ℕ
parse_i64 digits = if leb (value_from 0 digits) i64_max then some (value_from 0 digits) else none

-- The outer option is the error.
unfoldable pub optional_quoted_i64 : List ℕ → Option (Option ℕ)
optional_quoted_i64 value =
    if canonical_unsigned_integer_text value then (do n ← parse_i64 value; some (some n)) else none

-- An integer of JSON within `i64`: `negative n` is -(n + 1).
pub data IntegerWire : Type 0 where
  number negative : ℕ → IntegerWire
  text : List ℕ → IntegerWire

unfoldable pub optional_i64 : Option IntegerWire → Option (Option ℕ)
optional_i64 none = some none
optional_i64 (some (number n)) = some (some n)
optional_i64 (some (negative n)) = none
optional_i64 (some (text value)) =
    if length value == 0
    then some none
    else if canonical_unsigned_integer_text value
    then (do n ← parse_i64 value; some (some n))
    else none

-- The conversion to `u64` succeeds: the value is not negative.
unfoldable pub optional_u64 : Option IntegerWire → Option (Option ℕ)
unfolding optional_i64
optional_u64 value = optional_i64 value

-- The parser of a hash is a parameter.
unfoldable pub optional_empty_b256 : (List ℕ → Option ℕ) → Option (List ℕ) → Option (Option ℕ)
optional_empty_b256 b256_from_str none = some none
optional_empty_b256 b256_from_str (some value) =
    if length value == 0 then some none else (do hash ← b256_from_str value; some (some hash))

-- utils/serialize.rs; the parser of decimals is a parameter.
module _ {Decimal : Type 0} (decimal_from_str_exact : List ℕ → Option Decimal) where
  unfoldable pub quoted_decimal : List ℕ → Option Decimal
  quoted_decimal value =
      if canonical_nonnegative_decimal_text value then decimal_from_str_exact value else none

  unfoldable pub optional_quoted_decimal : List ℕ → Option (Option Decimal)
  unfolding quoted_decimal
  optional_quoted_decimal value =
      if length value == 0 then some none else (do d ← quoted_decimal value; some (some d))
