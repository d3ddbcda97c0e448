-- ===== src/Auth/Schema/Envelope.antt =====
-- The envelope of a page that is accepted.
use rspm.Common.{ℕ, ◌≤◌, ◌<◌, ◌≡◌, arith, true, List, ◌⊎◌}
use rspm.Auth.{Endpoint, ok}
use rspm.Auth.Schema.{page_is_refused, validate_page, max_page_limit, cursor_is_terminal}

abbrev pub IsEnvelope : ℕ → ℕ → ℕ → List ℕ → Type 0
IsEnvelope data_len count limit next_cursor =
    (count ≡ data_len)
    × (count ≤ limit)
    × (limit ≤ max_page_limit)
    × ((0 < data_len) ⊎ (cursor_is_terminal next_cursor ≡ true))

pub validate_page-IsEnvelope :
    (endpoint : Endpoint) (data_len count limit : ℕ) (next_cursor : List ℕ) {u : Unit {0}}
    → validate_page endpoint data_len count limit next_cursor ≡ ok u
    → IsEnvelope data_len count limit next_cursor
unfolding validate_page page_is_refused
validate_page-IsEnvelope endpoint data_len count limit next_cursor h =
    (ground arith, ground arith, ground arith, ground arith)
