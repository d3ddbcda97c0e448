-- ===== src/Auth/Trades/Pages.antt =====
-- What the decoding of a page of trades accepts, and the path that it reports where it refuses.
use rspm.Common.{
  ℕ, suc, ◌+◌, ◌≤◌, ◌<◌, ◌≡◌, refl, sym, arith, true, false, none, List, [], ◌∷◌, ◌++◌, length, All,
  Option-cases, ◌⊎◌, inl, inr,
}
use rspm.Auth.{EndpointError, ok, err, >>=-eq-ok, trades}
use rspm.Auth.Schema.{
  Decimals, venue_identifier_is_valid, validate_page, max_page_limit, cursor_is_terminal,
}
use rspm.Auth.Schema.Envelope.{validate_page-IsEnvelope}
use rspm.Auth.Trades.{
  MakerOrder, Trade, TradePage, is_negative, is_some_negative, price_is_out_of_range,
  invalid_maker_field, maker_try_from_wire, makers_try_from_wire, invalid_trade_field,
  trade_try_from_wire, trades_try_from_wire, decode_trade_page,
}

module _ {Decimal : Type 0} (decimals : Decimals Decimal) where
  -- A maker leg with a valid identity and amounts in range.
  abbrev pub IsMaker : MakerOrder Decimal → Type 0
  IsMaker m =
      (venue_identifier_is_valid m.order_id ≡ true)
      × (is_negative decimals m.matched_amount ≡ false)
      × (price_is_out_of_range decimals m.price ≡ false)
      × (is_some_negative decimals m.fee_rate_bps ≡ false)
      × (is_some_negative decimals m.fee_usdc ≡ false)

  abbrev pub IsTrade : Trade Decimal → Type 0
  IsTrade t =
      (venue_identifier_is_valid t.id ≡ true)
      × (venue_identifier_is_valid t.taker_order_id ≡ true)
      × (is_negative decimals t.size ≡ false)
      × (price_is_out_of_range decimals t.price ≡ false)
      × (is_negative decimals t.fee_rate_bps ≡ false)
      × (is_some_negative decimals t.fee_usdc ≡ false)
      × All IsMaker t.maker_orders

  invalid_maker_field-none :
      (m : MakerOrder Decimal) → invalid_maker_field decimals m ≡ none → IsMaker m
  unfolding invalid_maker_field
  invalid_maker_field-none m h = ground arith

  IsMaker-accepted : (m : MakerOrder Decimal) → IsMaker m → invalid_maker_field decimals m ≡ none
  unfolding invalid_maker_field
  IsMaker-accepted m h = ground arith

  maker_try_from_wire-ok :
      (i j : ℕ) (m : MakerOrder Decimal) {out : MakerOrder Decimal}
      → maker_try_from_wire decimals i j m ≡ ok out
      → (out ≡ m) × IsMaker m
  unfolding maker_try_from_wire
  maker_try_from_wire-ok i j m h = elim (Option-cases (invalid_maker_field decimals m)) [
    | inl e ↦ (ground arith, invalid_maker_field-none m e)
    | inr (f, e) ↦ absurd (ground arith)
  ]

  IsMaker-converted :
      (i j : ℕ) (m : MakerOrder Decimal) → IsMaker m → maker_try_from_wire decimals i j m ≡ ok m
  unfolding maker_try_from_wire
  IsMaker-converted i j m h = rw (IsMaker-accepted m h, maker_try_from_wire) refl

  makers_try_from_wire-ok :
      (i j : ℕ) (ms : List (MakerOrder Decimal)) {out : List (MakerOrder Decimal)}
      → makers_try_from_wire decimals i j ms ≡ ok out
      → (out ≡ ms) × All IsMaker ms
  unfolding makers_try_from_wire
  makers_try_from_wire-ok i j [] h = (cc, tt)
  makers_try_from_wire-ok i j (m ∷ ms) h =
      let (first, e, k) = >>=-eq-ok (maker_try_from_wire decimals i j m) _ h in
      let (rest, e', k') = >>=-eq-ok (makers_try_from_wire decimals i (suc j) ms) _ k in
      let (same, valid) = maker_try_from_wire-ok i j m e in
      let (same', valid') = makers_try_from_wire-ok i (suc j) ms e' in (cc, (valid, valid'))

  makers_converted :
      (i j : ℕ) (ms : List (MakerOrder Decimal))
      → All IsMaker ms
      → makers_try_from_wire decimals i j ms ≡ ok ms
  unfolding makers_try_from_wire
  makers_converted i j [] h = refl
  makers_converted i j (m ∷ ms) (h, hs) =
      rw (IsMaker-converted i j m h, makers_converted i (suc j) ms hs)

  invalid_trade_field-none :
      (t : Trade Decimal)
      → invalid_trade_field decimals t ≡ none
      → All IsMaker t.maker_orders
      → IsTrade t
  unfolding invalid_trade_field
  invalid_trade_field-none t h ms = ground arith

  IsTrade-accepted : (t : Trade Decimal) → IsTrade t → invalid_trade_field decimals t ≡ none
  unfolding invalid_trade_field
  IsTrade-accepted t h = ground arith

  trade_try_from_wire-ok :
      (i : ℕ) (t : Trade Decimal) {out : Trade Decimal}
      → trade_try_from_wire decimals i t ≡ ok out
      → (out ≡ t) × IsTrade t
  unfolding trade_try_from_wire
  trade_try_from_wire-ok i t h = elim (Option-cases (invalid_trade_field decimals t)) [
    | inl e ↦
        let k = rw (e, trade_try_from_wire) at h in
        let (rest, f, g) = >>=-eq-ok (makers_try_from_wire decimals i 0 t.maker_orders) _ k in
        let (same, valid) = makers_try_from_wire-ok i 0 t.maker_orders f in
        (let q = rw same at (sym g) in cc, invalid_trade_field-none t e valid)
    | inr (f, e) ↦ absurd (ground arith)
  ]

  IsTrade-converted :
      (i : ℕ) (t : Trade Decimal) → IsTrade t → trade_try_from_wire decimals i t ≡ ok t
  unfolding trade_try_from_wire
  IsTrade-converted i t h =
      rw (IsTrade-accepted t h, trade_try_from_wire) (rw (makers_converted i 0 t.maker_orders h.6))

  trades_try_from_wire-ok :
      (i : ℕ) (ts : List (Trade Decimal)) {out : List (Trade Decimal)}
      → trades_try_from_wire decimals i ts ≡ ok out
      → (out ≡ ts) × All IsTrade ts
  unfolding trades_try_from_wire
  trades_try_from_wire-ok i [] h = (cc, tt)
  trades_try_from_wire-ok i (t ∷ ts) h =
      let (first, e, k) = >>=-eq-ok (trade_try_from_wire decimals i t) _ h in
      let (rest, e', k') = >>=-eq-ok (trades_try_from_wire decimals (suc i) ts) _ k in
      let (same, valid) = trade_try_from_wire-ok i t e in
      let (same', valid') = trades_try_from_wire-ok (suc i) ts e' in (cc, (valid, valid'))

  -- The conversion of a list goes on to the first trade that is refused.
  pub trades_try_from_wire-append :
      (i k : ℕ) (good : List (Trade Decimal)) (bad : Trade Decimal) (rest : List (Trade Decimal))
      {e : EndpointError}
      → k ≡ i + length good
      → All IsTrade good
      → trade_try_from_wire decimals k bad ≡ err e
      → trades_try_from_wire decimals i (good ++ bad ∷ rest) ≡ err e
  unfolding trades_try_from_wire
  trades_try_from_wire-append i k [] bad rest p h refused =
      let at_end : i ≡ k = omega arith in rw (at_end, refused)
  trades_try_from_wire-append i k (t ∷ good) bad rest p (h, hs) refused = rw (
    IsTrade-converted i t h,
    trades_try_from_wire-append (suc i) k good bad rest (omega arith) hs refused,
  )

  pub makers_try_from_wire-append :
      (i j k : ℕ) (good : List (MakerOrder Decimal)) (bad : MakerOrder Decimal)
      (rest : List (MakerOrder Decimal)) {e : EndpointError}
      → k ≡ j + length good
      → All IsMaker good
      → maker_try_from_wire decimals i k bad ≡ err e
      → makers_try_from_wire decimals i j (good ++ bad ∷ rest) ≡ err e
  unfolding makers_try_from_wire
  makers_try_from_wire-append i j k [] bad rest p h refused =
      let at_end : j ≡ k = omega arith in rw (at_end, refused)
  makers_try_from_wire-append i j k (m ∷ good) bad rest p (h, hs) refused = rw (
    IsMaker-converted i j m h,
    makers_try_from_wire-append i (suc j) k good bad rest (omega arith) hs refused,
  )

  -- A page of trades that is decoded is the page of the response, every trade and maker leg of it
  -- has valid identities and amounts in range, its count is the number of its trades and within
  -- its limit, the limit is at most 1000, and an empty page ends the traversal.
  pub decode_trade_page-ok :
      (page : TradePage Decimal) {out : TradePage Decimal}
      → decode_trade_page decimals page ≡ ok out
      → (out ≡ page)
        × All IsTrade page.trades
        × (page.count ≡ length page.trades)
        × (page.count ≤ page.limit)
        × (page.limit ≤ max_page_limit)
        × ((0 < length page.trades) ⊎ (cursor_is_terminal page.next_cursor ≡ true))
  unfolding decode_trade_page
  decode_trade_page-ok page h =
      let (u, e, k) =
        >>=-eq-ok (validate_page trades (length page.trades) page.count page.limit page.next_cursor)
          _ h in
      let (converted, e', k') = >>=-eq-ok (trades_try_from_wire decimals 0 page.trades) _ k in
      let (same, valid) = trades_try_from_wire-ok 0 page.trades e' in
      let (counted, within, limited, closing) =
        validate_page-IsEnvelope trades (length page.trades) page.count page.limit page.next_cursor
          e in
      (let q = rw same at (sym k') in cc, valid, counted, within, limited, closing)
