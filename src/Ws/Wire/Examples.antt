-- ===== src/Ws/Wire/Examples.antt =====
-- A text frame with a trade, over decimals that are numbers: d is (d - 100) / 100.
use rspm.Common.{ℕ, ◌≤◌, ◌≡◌, ◌↔◌, refl, Option, none, some, List, [], ◌∷◌, All, ltb, codes}
use rspm.Utils.{canonical_unsigned_integer_text, to_string}
use rspm.Auth.Schema.{Decimals, buy, venue_identifier_is_valid}
use rspm.Ws.Frame.{EventBatch, default_batch, try_from_all, decode_frame}
use rspm.Ws.Events.{UserEvent, UserOrder, trade, order, confirmed}
use rspm.Ws.Wire.{
  WireTrade, WireUserEvent, wire_trade, wire_order, trade_type, optional_outcome_is_valid,
  trade_is_refused, trade_event, trade_try_from, size_valid, order_is_refused, order_try_from,
  event_try_from, i64_max, text, optional_i64, optional_u64, negative, optional_quoted_i64,
}
use rspm.Ws.Wire.Fields.{optional_i64-text}
use rspm.Ws.Wire.Conversion.{IsUserEvent, decode_frame-valid}

abbrev decimals : Decimals ℕ
decimals = record { lt = ltb; zero = 100; one = 200 }

abbrev fill : WireTrade ℕ
fill = record {
  id = codes "t-1";
  market = 4;
  asset_id = 5;
  side = buy;
  size = 300;
  price = 150;
  status = confirmed;
  message_type = some trade_type;
  last_update = none;
  matchtime = some 10;
  timestamp = none;
  owner = none;
  trade_owner = none;
  taker_order_id = some (codes "o-2");
  maker_orders = [];
  fee_rate_bps = none;
  fee_usdc = none;
  trader_side = none;
  outcome = some (codes "Yes");
  maker_address = none;
  transaction_hash = none;
  bucket_index = none;
}

abbrev resting : ℕ → UserOrder ℕ
resting price = record {
  id = codes "o-1";
  market = 4;
  asset_id = 5;
  side = buy;
  price = price;
  event_type = none;
  original_size = some 400;
  size_matched = some 100;
  timestamp = none;
  associated_trades = none;
  status = none;
  owner = none;
  order_owner = none;
  outcome = none;
  created_at = none;
  expiration = none;
  order_type = none;
  maker_address = none;
}

abbrev deserialize : List ℕ → Option (List (WireUserEvent ℕ))
deserialize frame = some (wire_trade fill ∷ wire_order (resting 120) ∷ [])

abbrev events : List (UserEvent ℕ)
events = trade (trade_event decimals fill []) ∷ order (resting 120) ∷ []

abbrev frame : List ℕ
frame = codes "[..]"

abbrev batch : EventBatch (UserEvent ℕ)
unfolding default_batch
batch = record default_batch { raw_frame = frame; events = events }

test_decode : decode_frame deserialize (event_try_from decimals) frame ≡ some batch
unfolding batch decode_frame default_batch try_from_all event_try_from trade_try_from
    trade_is_refused trade_event order_try_from order_is_refused size_valid
    optional_outcome_is_valid venue_identifier_is_valid
test_decode = refl

decode_frame-valid_example : All (IsUserEvent decimals) batch.events
decode_frame-valid_example = decode_frame-valid decimals deserialize frame batch test_decode

test_free_order : order_try_from decimals (resting 100) ≡ none
unfolding order_try_from order_is_refused size_valid optional_outcome_is_valid
    venue_identifier_is_valid
test_free_order = refl

test_empty_integer : optional_i64 (some (text [])) ≡ some none
unfolding optional_i64
test_empty_integer = refl

test_negative_integer : optional_u64 (some (negative 0)) ≡ none
unfolding optional_u64 optional_i64
test_negative_integer = refl

test_padded_integer : optional_quoted_i64 (codes "012") ≡ none
unfolding optional_quoted_i64 canonical_unsigned_integer_text
test_padded_integer = refl

optional_i64-text_example :
    (optional_i64 (some (text (codes "12"))) ≡ some (some 12))
    ↔ ((codes "12" ≡ to_string 12) × (12 ≤ i64_max))
optional_i64-text_example = optional_i64-text (codes "12") 12
