-- ===== src/Common/Words.antt =====
-- Machine words as bounded native numbers.
use Prim.Native.Nat.{ℕ, ◌+◌}
use mathlib.Core.Option.{Option, none, some}
use rspm.Common.Tests.{leb, if◌then◌else◌}

-- `u64::MAX` and `u32::MAX`; `usize` is 64 bits wide.
abbrev pub u64_max : ℕ
u64_max = 18446744073709551615

abbrev pub u32_max : ℕ
u32_max = 4294967295

-- `u64::checked_add`.
abbrev pub checked_add : ℕ → ℕ → Option ℕ
checked_add a b = if leb (a + b) u64_max then some (a + b) else none
