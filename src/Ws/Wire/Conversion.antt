-- ===== src/Ws/Wire/Conversion.antt =====
-- What an event that the conversion yields satisfies.
use rspm.Common.{
  ℕ, ◌≡◌, subst, arith, true, false, Option, none, some, List, [], ◌∷◌, map, All, Option-cases,
  Bool-cases, inl, inr, all,
}
use rspm.Auth.Schema.{Decimals, venue_identifier_is_valid}
use rspm.Ws.Frame.{EventBatch, try_from_all, decode_frame}
use rspm.Ws.Frame.Laws.{decode_frame-some, try_from_all-some}
use rspm.Ws.Events.{UserMakerOrder, UserTrade, UserOrder, UserEvent, trade, order}
use rspm.Ws.Wire.{
  WireTrade, WireUserEvent, wire_trade, wire_order, is_none_or, optional_outcome_is_valid,
  is_negative, is_some_negative, maker_order_try_from, trade_is_refused, trade_event,
  trade_try_from, size_valid, order_is_refused, order_try_from, event_try_from,
}

All-of_map {ℓ κ} :
    {A : Type ℓ} {B : Type 0} (f : A → Option B) (P : B → Type κ) (ws : List A) (es : List B)
    → ((w : A) (e : B) → f w ≡ some e → P e)
    → map f ws ≡ map some es
    → All P es
All-of_map f P ws [] each h = tt
All-of_map f P [] (e ∷ es) each h = cc
All-of_map f P (w ∷ ws) (e ∷ es) each h = (each w e (cc), All-of_map f P ws es each (cc))

module _ {Decimal : Type 0} (decimals : Decimals Decimal) where
  -- A price from 0 to 1.
  abbrev IsPrice : Decimal → Type 0
  IsPrice price = (is_negative decimals price ≡ false) × (decimals.lt decimals.one price ≡ false)

  abbrev IsFee : Option Decimal → Type 0
  IsFee fee = is_some_negative decimals fee ≡ false

  abbrev IsUserMakerOrder : UserMakerOrder Decimal → Type 0
  IsUserMakerOrder o =
      (venue_identifier_is_valid o.order_id ≡ true)
      × (is_negative decimals o.matched_amount ≡ false)
      × IsPrice o.price
      × IsFee o.fee_rate_bps
      × IsFee o.fee_usdc
      × (optional_outcome_is_valid o.outcome ≡ true)

  abbrev IsUserTrade : UserTrade Decimal → Type 0
  IsUserTrade t =
      (venue_identifier_is_valid t.id ≡ true)
      × (is_none_or venue_identifier_is_valid t.taker_order_id ≡ true)
      × (is_negative decimals t.size ≡ false)
      × IsPrice t.price
      × IsFee t.fee_rate_bps
      × IsFee t.fee_usdc
      × (optional_outcome_is_valid t.outcome ≡ true)
      × All IsUserMakerOrder t.maker_orders

  -- No sizes, or an original size above 0 and a matched size from 0 to the original.
  abbrev AreSizes : Option Decimal → Option Decimal → Type 0
  AreSizes none none = Unit {0}
  AreSizes (some original) (some matched) =
      (decimals.lt decimals.zero original ≡ true)
      × (is_negative decimals matched ≡ false)
      × (decimals.lt original matched ≡ false)
  AreSizes _ _ = ⊥

  abbrev IsUserOrder : UserOrder Decimal → Type 0
  IsUserOrder o =
      (venue_identifier_is_valid o.id ≡ true)
      × (decimals.lt decimals.zero o.price ≡ true)
      × (decimals.lt decimals.one o.price ≡ false)
      × AreSizes o.original_size o.size_matched
      × (is_none_or (all venue_identifier_is_valid) o.associated_trades ≡ true)
      × (optional_outcome_is_valid o.outcome ≡ true)

  abbrev pub IsUserEvent : UserEvent Decimal → Type 0
  IsUserEvent (trade t) = IsUserTrade t
  IsUserEvent (order o) = IsUserOrder o

  maker_order-valid :
      (w e : UserMakerOrder Decimal) → maker_order_try_from decimals w ≡ some e → IsUserMakerOrder e
  unfolding maker_order_try_from
  maker_order-valid w e h = ground arith

  size_valid-AreSizes :
      (original matched : Option Decimal)
      → size_valid decimals original matched ≡ true
      → AreSizes original matched
  unfolding size_valid
  size_valid-AreSizes none none h = tt
  size_valid-AreSizes (some original) (some matched) h = ground arith
  size_valid-AreSizes none (some matched) h = absurd (cc)
  size_valid-AreSizes (some original) none h = absurd (cc)

  order_not_refused : (o : UserOrder Decimal) → order_is_refused decimals o ≡ false → IsUserOrder o
  unfolding order_is_refused
  order_not_refused o h = (
    ground arith,
    ground arith,
    ground arith,
    size_valid-AreSizes o.original_size o.size_matched (ground arith),
    ground arith,
    ground arith,
  )

  order-valid : (w e : UserOrder Decimal) → order_try_from decimals w ≡ some e → IsUserOrder e
  unfolding order_try_from
  order-valid w e h = elim (Bool-cases (order_is_refused decimals w)) [
    | inl refused ↦ absurd (ground arith)
    | inr kept ↦
        subst IsUserOrder (let same : w ≡ e = ground arith in same) (order_not_refused w kept)
  ]

  trade_not_refused :
      (t : WireTrade Decimal) (makers : List (UserMakerOrder Decimal))
      → trade_is_refused decimals t ≡ false
      → All IsUserMakerOrder makers
      → IsUserTrade (trade_event decimals t makers)
  unfolding trade_is_refused trade_event
  trade_not_refused t makers h m = (
    ground arith,
    ground arith,
    ground arith,
    (ground arith, ground arith),
    ground arith,
    ground arith,
    ground arith,
    m,
  )

  trade-valid :
      (w : WireTrade Decimal) (e : UserTrade Decimal)
      → trade_try_from decimals w ≡ some e
      → IsUserTrade e
  unfolding trade_try_from
  trade-valid w e h = elim (Bool-cases (trade_is_refused decimals w)) [
    | inl refused ↦ absurd (ground arith)
    | inr kept ↦ elim (Option-cases (try_from_all (maker_order_try_from decimals) w.maker_orders)) [
      | inl failed ↦ absurd (ground arith)
      | inr (makers, converted) ↦
          subst IsUserTrade (let same : trade_event decimals w makers ≡ e = ground arith in same) (
            trade_not_refused w makers kept (
              All-of_map (maker_order_try_from decimals) IsUserMakerOrder w.maker_orders makers
                maker_order-valid
                (try_from_all-some (maker_order_try_from decimals) w.maker_orders makers
                  converted)))
    ]
  ]

  event-valid :
      (w : WireUserEvent Decimal) (e : UserEvent Decimal)
      → event_try_from decimals w ≡ some e
      → IsUserEvent e
  unfolding event_try_from
  event-valid (wire_trade t) e h = elim (Option-cases (trade_try_from decimals t)) [
    | inl refused ↦ absurd (ground arith)
    | inr (t', converted) ↦
        subst IsUserEvent (let same : trade t' ≡ e = ground arith in same)
          (trade-valid t t' converted)
  ]
  event-valid (wire_order o) e h = elim (Option-cases (order_try_from decimals o)) [
    | inl refused ↦ absurd (ground arith)
    | inr (o', converted) ↦
        subst IsUserEvent (let same : order o' ≡ e = ground arith in same)
          (order-valid o o' converted)
  ]

  -- Every event of a decoded text frame has valid identities and outcomes, prices from 0 to 1 (an
  -- order's above 0), no negative amount or fee, valid maker legs, and, for an order, no sizes or a
  -- matched size from 0 to an original size above 0.
  pub decode_frame-valid :
      (deserialize : List ℕ → Option (List (WireUserEvent Decimal))) (frame : List ℕ)
      (batch : EventBatch (UserEvent Decimal))
      → decode_frame deserialize (event_try_from decimals) frame ≡ some batch
      → All IsUserEvent batch.events
  decode_frame-valid deserialize frame batch h =
      let (_, _, _, _, (wire, read, converted)) =
        decode_frame-some deserialize (event_try_from decimals) frame batch h in
      All-of_map (event_try_from decimals) IsUserEvent wire batch.events event-valid converted
