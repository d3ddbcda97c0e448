-- ===== src/Auth/Orders/Pages.antt =====
-- What the decoding of orders accepts.
use rspm.Common.{
  ℕ, ◌≤◌, ◌<◌, ◌≡◌, sym, ◌∙◌, if◌then◌else◌, subst, arith, true, false, not, List, [], ◌∷◌, length,
  All, Bool-cases, ◌⊎◌, inl, inr, all, text_eq, text_eq-eq,
}
use rspm.Auth.{Result, ok, err, >>=-eq-ok, order, request_failed}
use rspm.Auth.Schema.{
  Decimals, venue_identifier_is_valid, validate_page, max_page_limit, cursor_is_terminal,
}
use rspm.Auth.Schema.Envelope.{validate_page-IsEnvelope}
use rspm.Auth.Orders.{
  is_below, Order, OrderPage, order_is_valid, order_try_from, orders_try_from, decode_order_page,
  authenticated_order_path, fetch_one,
}

checked_id :
    {Decimal : Type 0} (order_id : List ℕ) (made : Order Decimal) {found : Order Decimal}
    → (if not (text_eq made.id order_id) then err (request_failed order) else ok made) ≡ ok found
    → (made ≡ found) × (found.id ≡ order_id)
checked_id order_id made {found} h = elim (Bool-cases (text_eq made.id order_id)) [
  | inl e ↦
      let same : made ≡ found = ground arith in (same, rw (← same) (text_eq-eq made.id order_id e))
  | inr differs ↦ absurd (ground arith)
]

module _ {Decimal : Type 0} (decimals : Decimals Decimal) where
  -- An order with valid identities, times from the epoch on, a matched size from 0 to an original
  -- size above 0, a price above 0 and at most 1, and an outcome and a type.
  abbrev pub IsOrder : Order Decimal → Type 0
  IsOrder o =
      (venue_identifier_is_valid o.id ≡ true)
      × (is_below o.created_at ≡ false)
      × (is_below o.expiration ≡ false)
      × (decimals.lt decimals.zero o.original_size ≡ true)
      × (decimals.lt o.size_matched decimals.zero ≡ false)
      × (decimals.lt o.original_size o.size_matched ≡ false)
      × (decimals.lt decimals.zero o.price ≡ true)
      × (decimals.lt decimals.one o.price ≡ false)
      × (all venue_identifier_is_valid o.associate_trades ≡ true)
      × (0 < length o.outcome)
      × (0 < length o.order_type)

  order_is_valid-IsOrder : (o : Order Decimal) → order_is_valid decimals o ≡ true → IsOrder o
  unfolding order_is_valid
  order_is_valid-IsOrder o h = ground arith

  order_try_from-ok :
      (o : Order Decimal) {out : Order Decimal}
      → order_try_from decimals o ≡ ok out
      → (out ≡ o) × IsOrder o
  unfolding order_try_from
  order_try_from-ok o h = elim (Bool-cases (order_is_valid decimals o)) [
    | inl valid ↦ (ground arith, order_is_valid-IsOrder o valid)
    | inr refused ↦ absurd (ground arith)
  ]

  orders_try_from-ok :
      (os : List (Order Decimal)) {out : List (Order Decimal)}
      → orders_try_from decimals os ≡ ok out
      → (out ≡ os) × All IsOrder os
  unfolding orders_try_from
  orders_try_from-ok [] h = (cc, tt)
  orders_try_from-ok (o ∷ os) h =
      let (first, e, k) = >>=-eq-ok (order_try_from decimals o) _ h in
      let (rest, e', k') = >>=-eq-ok (orders_try_from decimals os) _ k in
      let (same, valid) = order_try_from-ok o e in
      let (same', valid') = orders_try_from-ok os e' in (cc, (valid, valid'))

  -- A page of orders that is decoded is the page of the response, every order of it has valid
  -- identities, times from the epoch on, a matched size from 0 to an original size above 0, a price
  -- above 0 and at most 1, an outcome and a type; its count is the number of its orders and within
  -- its limit, the limit is at most 1000, and an empty page ends the traversal.
  pub decode_order_page-ok :
      (page : OrderPage Decimal) {out : OrderPage Decimal}
      → decode_order_page decimals page ≡ ok out
      → (out ≡ page)
        × All IsOrder page.orders
        × (page.count ≡ length page.orders)
        × (page.count ≤ page.limit)
        × (page.limit ≤ max_page_limit)
        × ((0 < length page.orders) ⊎ (cursor_is_terminal page.next_cursor ≡ true))
  unfolding decode_order_page
  decode_order_page-ok page h =
      let (u, e, k) =
        >>=-eq-ok (validate_page order (length page.orders) page.count page.limit page.next_cursor)
          _ h in
      let (converted, e', k') = >>=-eq-ok (orders_try_from decimals page.orders) _ k in
      let (same, valid) = orders_try_from-ok page.orders e' in
      let (counted, within, limited, closing) =
        validate_page-IsEnvelope order (length page.orders) page.count page.limit page.next_cursor
          e in
      (let q = rw same at (sym k') in cc, valid, counted, within, limited, closing)

  -- An order that is fetched by its identifier has that identifier, which is valid, and satisfies the
  -- conditions of an order.
  pub fetch_one-ok :
      (get : List ℕ → Result (List ℕ)) (deserialize : List ℕ → Result (Order Decimal))
      (order_id : List ℕ) {found : Order Decimal}
      → fetch_one decimals get deserialize order_id ≡ ok found
      → (found.id ≡ order_id) × IsOrder found
  unfolding fetch_one
  fetch_one-ok get deserialize order_id h =
      let (path, _, k) = >>=-eq-ok (authenticated_order_path order_id) _ h in
      let (body, _, k') = >>=-eq-ok (get path) _ k in
      let (wire, _, k'') = >>=-eq-ok (deserialize body) _ k' in
      let (made, e, last) = >>=-eq-ok (order_try_from decimals wire) _ k'' in
      let (same, valid) = order_try_from-ok wire e in
      let (same', found_id) = checked_id order_id made last in
      (found_id, subst IsOrder (sym same ∙ same') valid)
