-- ===== src/Retry/Hint.antt =====
-- retry.rs: the wait hint of a closed status class.
use rspm.Common.{
  ◌∙◌, ℕ, ◌+◌, ◌-◌, ◌*◌, min, Bool, true, false, not, ◌&&◌, ◌==◌, some, List, [], ◌∷◌, ◌++◌, length,
  ◌≡◌, refl, arith, u64_max,
}
use rspm.Retry.{
  begins_ci, find_ci, is_ascii_digit, push_digit, scan, retry_key, parse_retry_after_from_body,
}

-- The number that the digits write, the leading ones first, after a number that was read.
abbrev pub decimal : ℕ → List ℕ → ℕ
decimal v [] = v
decimal v (b ∷ digits) = decimal (v * 10 + (b - 48)) digits

abbrev pub all_digits : List ℕ → Bool
all_digits [] = true
all_digits (b ∷ digits) = is_ascii_digit b && all_digits digits

-- A text that goes on with no digit.
abbrev pub stops : List ℕ → Bool
stops [] = true
stops (b ∷ rest) = not (is_ascii_digit b)

scan_stops : (v : ℕ) (rest : List ℕ) → stops rest ≡ true → scan v true rest ≡ some v
unfolding scan
scan_stops v [] h = refl
scan_stops v (b ∷ rest) h = ground arith

scan_digits :
    (v : ℕ) (digits rest : List ℕ)
    → all_digits digits ≡ true
    → stops rest ≡ true
    → scan (min v u64_max) true (digits ++ rest) ≡ some (min (decimal v digits) u64_max)
unfolding scan
scan_digits v [] rest h s = scan_stops (min v u64_max) rest s
scan_digits v (b ∷ digits) rest h s =
    let saturated : push_digit (min v u64_max) b ≡ min (v * 10 + (b - 48)) u64_max = omega arith in
    let more = scan_digits (v * 10 + (b - 48)) digits rest (ground arith) s in
    ground (arith, saturated, more)

scan_first :
    (digits rest : List ℕ)
    → all_digits digits ≡ true
    → (length digits == 0) ≡ false
    → stops rest ≡ true
    → scan 0 false (digits ++ rest) ≡ some (min (decimal 0 digits) u64_max)
unfolding scan
scan_first [] rest h n s = absurd (ground arith)
scan_first (b ∷ digits) rest h n s =
    let first : push_digit 0 b ≡ min (0 * 10 + (b - 48)) u64_max = omega arith in
    let more = scan_digits (0 * 10 + (b - 48)) digits rest (ground arith) s in
    ground (arith, first, more)

find_key : (tail : List ℕ) → find_ci (retry_key 95 ++ tail) (retry_key 95) ≡ some 0
unfolding find_ci begins_ci
find_key tail = ground arith

skip_key : (tail : List ℕ) → scan 0 false (retry_key 95 ++ 61 ∷ tail) ≡ scan 0 false tail
unfolding scan
skip_key tail = ground arith

-- The class `retry_after=N`, with any text behind that goes on with no digit, yields the number `N`,
-- or the largest 64-bit number where `N` is above it.
pub parse_retry_after_from_body_lem :
    (digits rest : List ℕ)
    → all_digits digits ≡ true
    → (length digits == 0) ≡ false
    → stops rest ≡ true
    → parse_retry_after_from_body (retry_key 95 ++ 61 ∷ digits ++ rest)
      ≡ some (min (decimal 0 digits) u64_max)
unfolding parse_retry_after_from_body
parse_retry_after_from_body_lem digits rest h n s =
    rw (find_key (61 ∷ digits ++ rest), parse_retry_after_from_body)
      (skip_key (digits ++ rest) ∙ scan_first digits rest h n s)
