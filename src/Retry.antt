-- ===== src/Retry.antt =====
-- retry.rs: the bounded backoff and the parser of the wait hint. Texts are lists of bytes, durations
-- are counted in nanoseconds.
pub mod Backoff
pub mod Hint
pub mod Examples
use rspm.Common.{
  ℕ, zero, suc, ◌+◌, ◌-◌, ◌*◌, ◌^◌, min, Bool, true, false, not, ◌&&◌, ◌||◌, ◌==◌, Option, none,
  some, List, [], ◌∷◌, length, ltb, leb, if◌then◌else◌, u32_max, u64_max,
}

-- `Duration::MAX`.
abbrev pub duration_max : ℕ
duration_max = u64_max * 1000000000 + 999999999

pub record RetryPolicy : Type 0 where
  pub max_attempts : ℕ
  pub base_backoff : ℕ
  pub max_backoff : ℕ

unfoldable pub default_policy : RetryPolicy
default_policy = record { max_attempts = 3; base_backoff = 250000000; max_backoff = 5000000000 }

unfoldable pub should_retry : RetryPolicy → ℕ → Bool
should_retry p attempt = ltb attempt p.max_attempts

-- `2u32.saturating_pow(exponent)`.
unfoldable pub saturating_pow_two : ℕ → ℕ
saturating_pow_two exponent = min (2 ^ exponent) u32_max

unfoldable pub backoff_for : RetryPolicy → ℕ → Option ℕ → ℕ
unfolding saturating_pow_two
backoff_for p attempt (some hint) = min hint p.max_backoff
backoff_for p attempt none =
    min (min (p.base_backoff * saturating_pow_two (attempt - 1)) duration_max) p.max_backoff

pub data RateLimitSignal : Type 0 where
  not_rate_limited : RateLimitSignal
  rate_limited : Option ℕ → RateLimitSignal

unfoldable pub is_rate_limited : RateLimitSignal → Bool
is_rate_limited not_rate_limited = false
is_rate_limited (rate_limited hint) = true

unfoldable pub retry_after : RateLimitSignal → Option ℕ
retry_after not_rate_limited = none
retry_after (rate_limited hint) = hint

abbrev pub to_ascii_lowercase : ℕ → ℕ
to_ascii_lowercase b = if leb 65 b && leb b 90 then b + 32 else b

-- Whether the text begins with the needle, without regard to case.
unfoldable pub begins_ci : List ℕ → List ℕ → Bool
begins_ci [] haystack = true
begins_ci (n ∷ needle) [] = false
begins_ci (n ∷ needle) (h ∷ haystack) =
    to_ascii_lowercase n == to_ascii_lowercase h && begins_ci needle haystack

-- The first window of the needle's length that equals it.
unfoldable pub position_ci : List ℕ → List ℕ → Option ℕ
unfolding begins_ci
position_ci [] needle = none
position_ci (h ∷ haystack) needle =
    let later = position_ci haystack needle in
    if begins_ci needle (h ∷ haystack)
    then some 0
    else elim later [ none ↦ none | some i ↦ some (suc i) ]

unfoldable pub find_ci : List ℕ → List ℕ → Option ℕ
unfolding position_ci
find_ci haystack needle =
    if length needle == 0 || ltb (length haystack) (length needle)
    then none
    else position_ci haystack needle

abbrev pub is_ascii_digit : ℕ → Bool
is_ascii_digit b = leb 48 b && leb b 57

-- `value.saturating_mul(10).saturating_add(digit)`.
abbrev pub push_digit : ℕ → ℕ → ℕ
push_digit value b = min (min (value * 10) u64_max + (b - 48)) u64_max

-- The loop over the bytes; `none` where no digit is found.
unfoldable pub scan : ℕ → Bool → List ℕ → Option ℕ
scan value found_digit [] = if found_digit then some value else none
scan value found_digit (b ∷ tail) =
    let more = scan (push_digit value b) true tail in
    let skipped = scan value false tail in
    if is_ascii_digit b then more else (if found_digit then some value else skipped)

-- `str::get(idx..)` for an index within the text.
abbrev pub from_index : ℕ → List ℕ → List ℕ
from_index zero bytes = bytes
from_index (suc i) [] = []
from_index (suc i) (b ∷ bytes) = from_index i bytes

-- "retry_after" and "retry-after".
abbrev pub retry_key : ℕ → List ℕ
retry_key separator = 114 ∷ 101 ∷ 116 ∷ 114 ∷ 121 ∷ separator ∷ 97 ∷ 102 ∷ 116 ∷ 101 ∷ 114 ∷ []

-- The hint in seconds.
unfoldable pub parse_retry_after_from_body : List ℕ → Option ℕ
unfolding find_ci scan
parse_retry_after_from_body body = elim (find_ci body (retry_key 95)) [
  | some i ↦ scan 0 false (from_index i body)
  | none ↦ elim (find_ci body (retry_key 45)) [
    | some i ↦ scan 0 false (from_index i body)
    | none ↦ none
  ]
]
