-- ===== src/Ws/Events.antt =====
-- auth/ws/events.rs: the private events. The prefix `AuthenticatedUser` is dropped; addresses, hashes,
-- tokens and keys are numbers.
use rspm.Common.{ℕ, Option, List}
use rspm.Auth.Schema.{VenueSide}
use rspm.Auth.Trades.{TraderSide}

pub data TradeStatus : Type 0 where
  matched_not_broadcasted matched mined confirmed retrying failed : TradeStatus

pub data OrderType : Type 0 where
  placement update cancellation : OrderType

pub data OrderStatus : Type 0 where
  live matched delayed unmatched canceled : OrderStatus

pub data VenueOrderType : Type 0 where
  gtc gtd fak fok : VenueOrderType

pub record UserMakerOrder (Decimal : Type 0) : Type 0 where
  pub asset_id : ℕ
  pub matched_amount : Decimal
  pub order_id : List ℕ
  pub owner : ℕ
  pub price : Decimal
  pub side : VenueSide
  pub maker_address : Option ℕ
  pub outcome : Option (List ℕ)
  pub outcome_index : Option ℕ
  pub fee_rate_bps : Option Decimal
  pub fee_usdc : Option Decimal

pub record UserTrade (Decimal : Type 0) : Type 0 where
  pub id : List ℕ
  pub market : ℕ
  pub asset_id : ℕ
  pub side : VenueSide
  pub size : Decimal
  pub price : Decimal
  pub status : TradeStatus
  pub last_update : Option ℕ
  pub match_time : Option ℕ
  pub timestamp : Option ℕ
  pub owner : Option ℕ
  pub trade_owner : Option ℕ
  pub taker_order_id : Option (List ℕ)
  pub maker_orders : List (UserMakerOrder Decimal)
  pub outcome : Option (List ℕ)
  pub maker_address : Option ℕ
  pub transaction_hash : Option ℕ
  pub bucket_index : Option ℕ
  pub fee_rate_bps : Option Decimal
  pub fee_usdc : Option Decimal
  pub trader_side : Option TraderSide

pub record UserOrder (Decimal : Type 0) : Type 0 where
  pub id : List ℕ
  pub market : ℕ
  pub asset_id : ℕ
  pub side : VenueSide
  pub price : Decimal
  pub event_type : Option OrderType
  pub original_size : Option Decimal
  pub size_matched : Option Decimal
  pub timestamp : Option ℕ
  pub associated_trades : Option (List (List ℕ))
  pub status : Option OrderStatus
  pub owner : Option ℕ
  pub order_owner : Option ℕ
  pub outcome : Option (List ℕ)
  pub created_at : Option ℕ
  pub expiration : Option ℕ
  pub order_type : Option VenueOrderType
  pub maker_address : Option ℕ

pub data UserEvent (Decimal : Type 0) : Type 0 where
  trade : UserTrade Decimal → UserEvent Decimal
  order : UserOrder Decimal → UserEvent Decimal
