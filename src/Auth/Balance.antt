-- ===== src/Auth/Balance.antt =====
-- auth/balance.rs and auth/utils/transport.rs: authorities, the balance snapshot and the scaling of
-- collateral. An amount in base units and an address are numbers; a map of allowances is a list of
-- entries. The contract configuration of the SDK and the parser of decimals are parameters.
pub mod Scale
pub mod Capital
pub mod Examples
use rspm.Common.{
  ℕ, zero, suc, ◌-◌, ◌/◌, ◌%◌, Bool, true, false, ◌==◌, Option, none, some, List, [], ◌∷◌, ◌++◌,
  length, min, if◌then◌else◌, codes, map,
}
use rspm.Utils.{to_string}
use rspm.Auth.{
  EndpointError, Result, ok, err, ◌>>=◌, or_else, balance_allowance, protocol_version,
  request_failed, response_schema_decode,
}
use rspm.Ws.State.{CredentialIdentity, CredentialAuthority}
use rspm.Common.OrderedMap.{lookup, insert}
use rspm.Submission.{ProtocolVersion, v1, v2, ProtocolAuthority}

abbrev pub collateral_scale : ℕ
collateral_scale = 1000000

-- `ProtocolVersion::try_from`; `none` is the invalid version.
unfoldable pub version_try_from : ℕ → Option ProtocolVersion
version_try_from value = if value == 1 then some v1 else if value == 2 then some v2 else none

unfoldable pub credential_authority_new : CredentialIdentity → ℕ → Result CredentialAuthority
credential_authority_new identity generation =
    if generation == 0
    then err (request_failed protocol_version)
    else ok (record { identity = identity; generation = generation })

unfoldable pub protocol_authority_new :
    ProtocolVersion → ℕ → CredentialIdentity → Result ProtocolAuthority
unfolding credential_authority_new
protocol_authority_new version generation identity = do
  credentials ← credential_authority_new identity generation
  ok (record { version = version; credentials = credentials })

-- `std::iter::repeat_n('0', count)`.
abbrev pub zeros : ℕ → List ℕ
zeros zero = []
zeros (suc count) = 48 ∷ zeros count

-- The whole units, the point and six digits.
unfoldable pub collateral_text : ℕ → List ℕ
collateral_text raw =
    let fraction = to_string (raw % collateral_scale) in
    to_string (raw / collateral_scale) ++ 46 ∷ (zeros (6 - length fraction) ++ fraction)

-- What the SDK says of one exchange contract.
pub record ContractConfig : Type 0 where
  pub exchange : ℕ
  pub exchange_v2 : Option ℕ
  pub neg_risk_adapter : Option ℕ

pub record RawBalanceAllowance : Type 0 where
  pub balance : ℕ
  pub allowances : List (ℕ × ℕ)

pub record BalanceSnapshot (Decimal : Type 0) : Type 0 where
  pub protocol_authority : ProtocolAuthority
  pub balance_raw : ℕ
  pub required_allowances_raw : List (ℕ × ℕ)
  pub executable_capital : Decimal

-- `values().copied().fold(…, U256::min)`.
unfoldable pub fold_min : ℕ → List (ℕ × ℕ) → ℕ
fold_min binding [] = binding
fold_min binding ((address, allowance) ∷ allowances) = fold_min (min binding allowance) allowances

abbrev exchange_of : ProtocolVersion → ContractConfig → Option ℕ
exchange_of v1 config = some config.exchange
exchange_of v2 config = config.exchange_v2

module _ (contract_config : Bool → Option ContractConfig) where
  -- The normal exchange, the one for negative risk and its adapter.
  unfoldable pub required_spenders : ProtocolVersion → Result (List ℕ)
  required_spenders version = do
    normal ← or_else (contract_config false) (request_failed balance_allowance)
    neg_risk ← or_else (contract_config true) (request_failed balance_allowance)
    adapter ← or_else neg_risk.neg_risk_adapter (request_failed balance_allowance)
    normal_exchange ← or_else (exchange_of version normal) (request_failed balance_allowance)
    neg_risk_exchange ← or_else (exchange_of version neg_risk) (request_failed balance_allowance)
    ok (normal_exchange ∷ neg_risk_exchange ∷ adapter ∷ [])

-- The loop over the spenders.
unfoldable pub require_allowances : List (ℕ × ℕ) → List ℕ → List (ℕ × ℕ) → Result (List (ℕ × ℕ))
require_allowances allowances [] required = ok required
require_allowances allowances (spender ∷ spenders) required = do
  allowance ←
      or_else (lookup spender allowances)
        (response_schema_decode balance_allowance (codes "allowances"))
  require_allowances allowances spenders (insert spender allowance required)

module _ {Decimal : Type 0} (decimal_from_str_exact : List ℕ → Option Decimal) where
  unfoldable pub scale_collateral : ℕ → Result Decimal
  unfolding collateral_text
  scale_collateral raw =
      or_else (decimal_from_str_exact (collateral_text raw))
        (response_schema_decode balance_allowance (codes "balance"))

  unfoldable pub try_from_required_raw :
      ProtocolAuthority → ℕ → List (ℕ × ℕ) → Result (BalanceSnapshot Decimal)
  unfolding fold_min
  try_from_required_raw authority balance required =
      if length required == 0
      then err (response_schema_decode balance_allowance (codes "allowances"))
      else (do
        capital ← scale_collateral (fold_min balance required)
        ok (record {
          protocol_authority = authority;
          balance_raw = balance;
          required_allowances_raw = required;
          executable_capital = capital;
        }))

  unfoldable pub select_required_snapshot :
      (Bool → Option ContractConfig)
      → RawBalanceAllowance
      → ProtocolAuthority
      → Result (BalanceSnapshot Decimal)
  unfolding required_spenders require_allowances
  select_required_snapshot contract_config raw authority = do
    spenders ← required_spenders contract_config authority.version
    required ← require_allowances raw.allowances spenders []
    try_from_required_raw authority raw.balance required
