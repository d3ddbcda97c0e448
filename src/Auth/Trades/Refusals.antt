-- ===== src/Auth/Trades/Refusals.antt =====
-- The path that the decoding of a page of trades reports where it refuses one.
use rspm.Common.{
  ℕ, ◌≡◌, refl, ap, subst, arith, Bool, true, false, Option, none, some, List, ◌∷◌, ◌++◌, length,
  All, if◌then◌else◌, codes, inl, inr,
}
use rspm.Auth.{err, safe_fields}
use rspm.Auth.Schema.{Decimals, page_is_refused, validate_page}
use rspm.Auth.Trades.{
  MakerOrder, Trade, TradePage, indexed_trade_path, indexed_maker_path, invalid_maker_field,
  maker_try_from_wire, invalid_trade_field, trade_try_from_wire, decode_trade_page,
}
use rspm.Auth.Trades.Pages.{
  IsMaker, IsTrade, makers_try_from_wire-append, trades_try_from_wire-append,
}
use rspm.Auth.Trades.Paths.{Refused, error_at, trade_error, maker_error}

first_refusal :
    {field : List ℕ} (test : Bool) (name : List ℕ) (rest : Option (List ℕ))
    → Refused name
    → (rest ≡ some field → Refused field)
    → (if test then some name else rest) ≡ some field
    → Refused field
first_refusal {field} true name rest p more h = subst Refused (let e : name ≡ field = cc in e) p
first_refusal false name rest p more h = more h

last_refusal :
    {field : List ℕ} (test : Bool) (name : List ℕ)
    → Refused name
    → (if test then some name else none) ≡ some field
    → Refused field
last_refusal {field} true name p h = subst Refused (let e : name ≡ field = cc in e) p
last_refusal false name p h = absurd (cc)

module _ {Decimal : Type 0} (decimals : Decimals Decimal) where
  -- Every field that a maker leg is refused for is listed, the fee in USDC apart.
  invalid_maker_field-cases :
      (m : MakerOrder Decimal) {field : List ℕ}
      → invalid_maker_field decimals m ≡ some field
      → Refused field
  unfolding invalid_maker_field safe_fields
  invalid_maker_field-cases m = first_refusal _ (codes "order_id") _ (inr (refl, refl, refl)) (
      first_refusal _ (codes "matched_amount") _ (inr (refl, refl, refl)) (
        first_refusal _ (codes "price") _ (inr (refl, refl, refl)) (
          first_refusal _ (codes "fee_rate_bps") _ (inr (refl, refl, refl))
            (last_refusal _ (codes "fee_usdc") (inl refl)))))

  invalid_trade_field-cases :
      (t : Trade Decimal) {field : List ℕ}
      → invalid_trade_field decimals t ≡ some field
      → Refused field
  unfolding invalid_trade_field safe_fields
  invalid_trade_field-cases t = first_refusal _ (codes "id") _ (inr (refl, refl, refl)) (
      first_refusal _ (codes "taker_order_id") _ (inr (refl, refl, refl)) (
        first_refusal _ (codes "size") _ (inr (refl, refl, refl)) (
          first_refusal _ (codes "price") _ (inr (refl, refl, refl)) (
            first_refusal _ (codes "fee_rate_bps") _ (inr (refl, refl, refl))
              (last_refusal _ (codes "fee_usdc") (inl refl))))))

  refused_trade :
      (i : ℕ) (t : Trade Decimal) {field : List ℕ}
      → invalid_trade_field decimals t ≡ some field
      → trade_try_from_wire decimals i t ≡ err (error_at field (indexed_trade_path i field))
  unfolding trade_try_from_wire
  refused_trade i t {field} e =
      rw (e, trade_try_from_wire) (ap err (trade_error i field (invalid_trade_field-cases t e)))

  -- A page in a valid envelope whose first bad trade has a bad field of its own is refused with the
  -- path of that field in that trade, unless the field is the fee in USDC: then the error carries
  -- no path.
  pub decode_trade_page-first_trade :
      (page : TradePage Decimal) (good : List (Trade Decimal)) (bad : Trade Decimal)
      (rest : List (Trade Decimal)) {field : List ℕ}
      → page_is_refused (length page.trades) page.count page.limit page.next_cursor ≡ false
      → page.trades ≡ good ++ bad ∷ rest
      → All (IsTrade decimals) good
      → invalid_trade_field decimals bad ≡ some field
      → decode_trade_page decimals page
        ≡ err (error_at field (indexed_trade_path (length good) field))
  unfolding decode_trade_page validate_page
  decode_trade_page-first_trade page good bad rest {field} h e valid invalid =
      rw (h, e)
        (rw (
          trades_try_from_wire-append decimals 0 (length good) good bad rest (omega arith) valid
            (refused_trade (length good) bad invalid)))

  refused_maker :
      (i j : ℕ) (m : MakerOrder Decimal) {field : List ℕ}
      → invalid_maker_field decimals m ≡ some field
      → maker_try_from_wire decimals i j m ≡ err (error_at field (indexed_maker_path i j field))
  unfolding maker_try_from_wire
  refused_maker i j m {field} e =
      rw (e, maker_try_from_wire) (ap err (maker_error i j field (invalid_maker_field-cases m e)))

  refused_makers :
      (i : ℕ) (t : Trade Decimal) (good : List (MakerOrder Decimal)) (bad : MakerOrder Decimal)
      (rest : List (MakerOrder Decimal)) {field : List ℕ}
      → invalid_trade_field decimals t ≡ none
      → t.maker_orders ≡ good ++ bad ∷ rest
      → All (IsMaker decimals) good
      → invalid_maker_field decimals bad ≡ some field
      → trade_try_from_wire decimals i t
        ≡ err (error_at field (indexed_maker_path i (length good) field))
  unfolding trade_try_from_wire
  refused_makers i t good bad rest own e valid invalid =
      rw (own, trade_try_from_wire)
        (rw (
          e,
          makers_try_from_wire-append decimals i 0 (length good) good bad rest (omega arith) valid
              (refused_maker i (length good) bad invalid),
        ))

  -- A page in a valid envelope whose first bad trade is bad by its first bad maker leg only is
  -- refused with the path of the bad field in that leg of that trade, unless the field is the fee
  -- in USDC: then the error carries no path.
  pub decode_trade_page-first_maker :
      (page : TradePage Decimal) (good : List (Trade Decimal)) (bad : Trade Decimal)
      (rest : List (Trade Decimal)) (good_makers : List (MakerOrder Decimal))
      (bad_maker : MakerOrder Decimal) (rest_makers : List (MakerOrder Decimal)) {field : List ℕ}
      → page_is_refused (length page.trades) page.count page.limit page.next_cursor ≡ false
      → page.trades ≡ good ++ bad ∷ rest
      → All (IsTrade decimals) good
      → invalid_trade_field decimals bad ≡ none
      → bad.maker_orders ≡ good_makers ++ bad_maker ∷ rest_makers
      → All (IsMaker decimals) good_makers
      → invalid_maker_field decimals bad_maker ≡ some field
      → decode_trade_page decimals page
        ≡ err (error_at field (indexed_maker_path (length good) (length good_makers) field))
  unfolding decode_trade_page validate_page
  decode_trade_page-first_maker page good bad rest gm bm rm h e valid own em valid_makers invalid =
      rw (h, e)
        (rw (
          trades_try_from_wire-append decimals 0 (length good) good bad rest (omega arith) valid
            (refused_makers (length good) bad gm bm rm own em valid_makers invalid)))
