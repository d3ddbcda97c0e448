-- ===== src/Auth/Schema.antt =====
-- auth/utils/schema.rs: identifiers, cursors and the envelope of a page; and the decimals, a
-- third-party type, as a parameter.
pub mod Envelope
use rspm.Common.{ℕ, Bool, not, ◌&&◌, ◌||◌, ◌==◌, List, length, leb, codes, text_eq, all}
use rspm.Utils.{is_ascii_digit}
use rspm.Auth.{Endpoint, Result, reject_if, request_failed}

-- `Decimal` is totally ordered: `a <= b` is the negation of `b < a`.
pub record Decimals (Decimal : Type 0) : Type 0 where
  pub lt : Decimal → Decimal → Bool
  pub zero : Decimal
  pub one : Decimal

pub data VenueSide : Type 0 where
  buy sell : VenueSide

abbrev pub max_page_limit : ℕ
max_page_limit = 1000

abbrev pub max_venue_identifier_bytes : ℕ
max_venue_identifier_bytes = 512

abbrev pub terminal_cursor : List ℕ
terminal_cursor = codes "LTE="

abbrev pub is_ascii_alphanumeric : ℕ → Bool
is_ascii_alphanumeric b = is_ascii_digit b || (leb 65 b && leb b 90) || (leb 97 b && leb b 122)

unfoldable pub venue_identifier_is_valid : List ℕ → Bool
venue_identifier_is_valid value =
    not (length value == 0)
    && leb (length value) max_venue_identifier_bytes
    && all (λ b. is_ascii_alphanumeric b || b == 45 || b == 95) value

unfoldable pub cursor_is_terminal : List ℕ → Bool
cursor_is_terminal cursor = length cursor == 0 || text_eq cursor terminal_cursor

unfoldable pub cursor_is_valid : List ℕ → Bool
cursor_is_valid cursor =
    not (length cursor == 0)
    && leb (length cursor) 1024
    && all (λ b. is_ascii_alphanumeric b || b == 43 || b == 47 || b == 61) cursor

-- The conversions between `u64` and `usize` succeed: both have 64 bits.
unfoldable pub page_is_refused : ℕ → ℕ → ℕ → List ℕ → Bool
unfolding cursor_is_terminal cursor_is_valid
page_is_refused data_len count limit next_cursor =
    not (count == data_len)
    || not (not (limit == 0) && leb limit max_page_limit && leb count limit && leb data_len limit)
    || not (cursor_is_terminal next_cursor || cursor_is_valid next_cursor)
    || (data_len == 0 && not (cursor_is_terminal next_cursor))

unfoldable pub validate_page : Endpoint → ℕ → ℕ → ℕ → List ℕ → Result (Unit {0})
unfolding page_is_refused
validate_page endpoint data_len count limit next_cursor =
    reject_if (page_is_refused data_len count limit next_cursor) (request_failed endpoint)
