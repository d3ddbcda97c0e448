-- ===== src/Ws/Wire/Fields.antt =====
-- The integer fields: a text is read as a number exactly where it is the number's print.
use rspm.Common.{ℕ, ◌≤◌, ◌≡◌, ◌↔◌, sym, ap, ◌∙◌, arith, true, some, List}
use rspm.Utils.{canonical_unsigned_integer_text, to_string}
use rspm.Utils.Decimal.{value_from, value-to_string, to_string-nonempty}
use rspm.Utils.Canonical.{to_string-canonical, to_string-value}
use rspm.Ws.Wire.{i64_max, text, optional_i64}

read_print : (n : ℕ) → n ≤ i64_max → optional_i64 (some (text (to_string n))) ≡ some (some n)
unfolding optional_i64
read_print n h = ground (arith, to_string-nonempty n, to_string-canonical n, value-to_string n)

accepted :
    (value : List ℕ) (n : ℕ)
    → optional_i64 (some (text value)) ≡ some (some n)
    → (canonical_unsigned_integer_text value ≡ true) × (value_from 0 value ≡ n) × (n ≤ i64_max)
unfolding optional_i64
accepted value n h = (ground arith, ground arith, ground arith)

print_read :
    (value : List ℕ) (n : ℕ)
    → optional_i64 (some (text value)) ≡ some (some n)
    → (value ≡ to_string n) × (n ≤ i64_max)
print_read value n h =
    let (canonical, e, le) = accepted value n h in
    (sym (to_string-value value canonical) ∙ ap to_string e, le)

-- A text in an integer field is read as a number exactly where it is the decimal print of that number
-- and the number is at most `i64::MAX`.
pub optional_i64-text :
    (value : List ℕ) (n : ℕ)
    → (optional_i64 (some (text value)) ≡ some (some n)) ↔ ((value ≡ to_string n) × (n ≤ i64_max))
optional_i64-text value n = (print_read value n, λ (e, h). rw e (read_print n h))
