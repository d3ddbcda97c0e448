-- ===== src/Utils/Examples.antt =====
-- The number 120 and texts around it.
use rspm.Common.{◌≡◌, refl, true, false, codes}
use rspm.Utils.{canonical_unsigned_integer_text, canonical_nonnegative_decimal_text}

canonical_number : canonical_unsigned_integer_text (codes "120") ≡ true
unfolding canonical_unsigned_integer_text
canonical_number = refl

test_leading_zero : canonical_unsigned_integer_text (codes "0120") ≡ false
unfolding canonical_unsigned_integer_text
test_leading_zero = refl

test_decimal : canonical_nonnegative_decimal_text (codes "0.50") ≡ true
unfolding canonical_nonnegative_decimal_text
test_decimal = refl
