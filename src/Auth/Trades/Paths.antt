-- ===== src/Auth/Trades/Paths.antt =====
-- The paths of the fields that the decoding of a trade refuses.
use rspm.Common.{
  ℕ, ◌≡◌, refl, ap, subst, true, false, none, List, [], ◌∷◌, ◌++◌, if◌then◌else◌, codes, text_eq,
  text_eq-eq, contains_text, ◌⊎◌, inl, inr, Bool-cases,
}
use rspm.Utils.{to_string}
use rspm.Auth.{
  EndpointError, trades, schema_decode, request_failed, safe_fields, response_schema_decode,
  response_path_is_safe,
}
use rspm.Auth.ErrorPaths.{
  IsField, field_path-IsSafe, nested_path-IsSafe, field_path-unsafe, nested_path-unsafe,
}
use rspm.Auth.Trades.{
  indexed_trade_path, indexed_maker_path, indexed_trade_schema_error, indexed_maker_schema_error,
}

collection-IsField : IsField trades (codes "data")
unfolding safe_fields
collection-IsField = (refl, refl, refl)

makers-IsField : IsField trades (codes "maker_orders")
unfolding safe_fields
makers-IsField = (refl, refl, refl)

close_bracket :
    (digits field : List ℕ) → digits ++ 93 ∷ 46 ∷ field ≡ (digits ++ 93 ∷ []) ++ 46 ∷ field
close_bracket [] field = refl
close_bracket (d ∷ digits) field = ap (λ t. d ∷ t) (close_bracket digits field)

indexed_trade_path-IsSafe :
    (i : ℕ) (field : List ℕ)
    → IsField trades field
    → response_path_is_safe trades (indexed_trade_path i field) ≡ true
unfolding indexed_trade_path
indexed_trade_path-IsSafe i field f =
    rw (close_bracket (to_string i) field)
      (field_path-IsSafe trades (codes "data") i field collection-IsField f)

indexed_maker_path-IsSafe :
    (i j : ℕ) (field : List ℕ)
    → IsField trades field
    → response_path_is_safe trades (indexed_maker_path i j field) ≡ true
unfolding indexed_maker_path
indexed_maker_path-IsSafe i j field f =
    rw (close_bracket (to_string j) field, close_bracket (to_string i))
      (nested_path-IsSafe trades (codes "data") i (codes "maker_orders") j field collection-IsField
        makers-IsField f)

indexed_trade_schema_error-field :
    (i : ℕ) (field : List ℕ)
    → IsField trades field
    → indexed_trade_schema_error i field ≡ schema_decode trades (indexed_trade_path i field) none
unfolding indexed_trade_schema_error response_schema_decode
indexed_trade_schema_error-field i field f = rw (indexed_trade_path-IsSafe i field f)

indexed_maker_schema_error-field :
    (i j : ℕ) (field : List ℕ)
    → IsField trades field
    → indexed_maker_schema_error i j field
      ≡ schema_decode trades (indexed_maker_path i j field) none
unfolding indexed_maker_schema_error response_schema_decode
indexed_maker_schema_error-field i j field f = rw (indexed_maker_path-IsSafe i j field f)

fee_usdc-unlisted : contains_text (codes "fee_usdc") (safe_fields trades) ≡ false
unfolding safe_fields
fee_usdc-unlisted = refl

fee_usdc_path-unsafe :
    (i : ℕ) → response_path_is_safe trades (indexed_trade_path i (codes "fee_usdc")) ≡ false
unfolding indexed_trade_path
fee_usdc_path-unsafe i =
    rw (close_bracket (to_string i) (codes "fee_usdc")) (
      field_path-unsafe trades (codes "data") i (codes "fee_usdc") refl refl refl fee_usdc-unlisted)

fee_usdc_maker_path-unsafe :
    (i j : ℕ) → response_path_is_safe trades (indexed_maker_path i j (codes "fee_usdc")) ≡ false
unfolding indexed_maker_path
fee_usdc_maker_path-unsafe i j =
    rw (close_bracket (to_string j) (codes "fee_usdc"), close_bracket (to_string i))
      (nested_path-unsafe trades (codes "data") i (codes "maker_orders") j (codes "fee_usdc") refl
        refl refl refl fee_usdc-unlisted)

indexed_trade_fee_usdc :
    (i : ℕ) → indexed_trade_schema_error i (codes "fee_usdc") ≡ request_failed trades
unfolding indexed_trade_schema_error response_schema_decode
indexed_trade_fee_usdc i = rw (fee_usdc_path-unsafe i)

indexed_maker_fee_usdc :
    (i j : ℕ) → indexed_maker_schema_error i j (codes "fee_usdc") ≡ request_failed trades
unfolding indexed_maker_schema_error response_schema_decode
indexed_maker_fee_usdc i j = rw (fee_usdc_maker_path-unsafe i j)

-- A field that may be reported, or the fee in USDC, which the safe fields do not list.
abbrev pub Refused : List ℕ → Type 0
Refused field = (field ≡ codes "fee_usdc") ⊎ IsField trades field

-- Where an error carries the path of a field: not for the fee in USDC.
abbrev pub error_at : List ℕ → List ℕ → EndpointError
error_at field path =
    if text_eq field (codes "fee_usdc")
    then request_failed trades
    else schema_decode trades path none

field-is_reported :
    (field : List ℕ) → IsField trades field → text_eq field (codes "fee_usdc") ≡ false
unfolding safe_fields
field-is_reported field f = elim (Bool-cases (text_eq field (codes "fee_usdc"))) [
  | inl e ↦
      let listed = subst (IsField trades) (text_eq-eq field (codes "fee_usdc") e) f in
      absurd (cc (listed.2))
  | inr e ↦ e
]

pub trade_error :
    (i : ℕ) (field : List ℕ)
    → Refused field
    → indexed_trade_schema_error i field ≡ error_at field (indexed_trade_path i field)
trade_error i field (inl e) = rw e (indexed_trade_fee_usdc i)
trade_error i field (inr f) =
    rw (field-is_reported field f) (indexed_trade_schema_error-field i field f)

pub maker_error :
    (i j : ℕ) (field : List ℕ)
    → Refused field
    → indexed_maker_schema_error i j field ≡ error_at field (indexed_maker_path i j field)
maker_error i j field (inl e) = rw e (indexed_maker_fee_usdc i j)
maker_error i j field (inr f) =
    rw (field-is_reported field f) (indexed_maker_schema_error-field i j field f)
