-- ===== src/Auth/Balance/Examples.antt =====
-- Amounts of collateral, and a balance whose least required allowance binds.
use rspm.Common.{
  ℕ, ◌≤◌, ◌≡◌, refl, Bool, true, false, Option, none, some, List, [], ◌∷◌, ◌++◌, length, All, ◌⊎◌,
  codes,
}
use rspm.Common.OrderedMap.{lookup, insert}
use rspm.Common.OrderedSet.{contains}
use rspm.Submission.{ProtocolAuthority, v2}
use rspm.Utils.{all_ascii_digits, canonical_unsigned_integer_text, digits_before, to_string}
use rspm.Utils.Decimal.{value_from}
use rspm.Auth.{ok}
use rspm.Auth.Balance.{
  ContractConfig, RawBalanceAllowance, BalanceSnapshot, collateral_text, fold_min,
  required_spenders, require_allowances, scale_collateral, try_from_required_raw,
  select_required_snapshot,
}
use rspm.Auth.Balance.Scale.{collateral_text-exact}
use rspm.Auth.Balance.Capital.{select_required_snapshot-capital}

test_collateral : collateral_text 12034567 ≡ codes "12.034567"
unfolding collateral_text to_string digits_before
test_collateral = refl

collateral_text-exact_example :
    (whole : List ℕ) × (fraction : List ℕ) × (collateral_text 5 ≡ whole ++ 46 ∷ fraction)
    × (canonical_unsigned_integer_text whole ≡ true)
    × (all_ascii_digits fraction ≡ true)
    × (length fraction ≡ 6)
    × (value_from 0 (whole ++ fraction) ≡ 5)
collateral_text-exact_example = collateral_text-exact 5

abbrev contract_config : Bool → Option ContractConfig
contract_config false =
    some (record { exchange = 1; exchange_v2 = some 2; neg_risk_adapter = none })
contract_config true =
    some (record { exchange = 3; exchange_v2 = some 4; neg_risk_adapter = some 5 })

abbrev authority : ProtocolAuthority
authority = record { version = v2; credentials = record { identity = 1; generation = 1 } }

abbrev allowances : RawBalanceAllowance
allowances = record {
  balance = 5000000;
  allowances = (2, 9000000) ∷ (4, 3000000) ∷ (5, 7000000) ∷ [];
}

-- The parser of decimals as the number of bytes.
abbrev parse : List ℕ → Option ℕ
parse digits = some (length digits)

abbrev expected : BalanceSnapshot ℕ
expected = record {
  protocol_authority = authority;
  balance_raw = 5000000;
  required_allowances_raw = (2, 9000000) ∷ (4, 3000000) ∷ (5, 7000000) ∷ [];
  executable_capital = 8;
}

test_snapshot : select_required_snapshot parse contract_config allowances authority ≡ ok expected
unfolding select_required_snapshot required_spenders require_allowances lookup insert
    try_from_required_raw fold_min scale_collateral collateral_text to_string digits_before
test_snapshot = refl

select_required_snapshot-capital_example :
    (binding : ℕ) × (spenders : List ℕ) × (required_spenders contract_config v2 ≡ ok spenders)
    × (scale_collateral parse binding ≡ ok 8)
    × (binding ≤ 5000000)
    × All (λ s. (v : ℕ) × (lookup s allowances.allowances ≡ some v) × (binding ≤ v)) spenders
    × ((binding ≡ 5000000)
        ⊎ ((s : ℕ) × ((lookup s allowances.allowances ≡ some binding)
              × (contains s spenders ≡ true))))
select_required_snapshot-capital_example =
    select_required_snapshot-capital parse contract_config allowances authority test_snapshot
