-- ===== src/Models/Validators.antt =====
-- src/models.py: the model validators, and the constructors that run them.
use exchange_router_service.Prelude.{
  String, Bool, true, false, ◌&&◌, not, Option, none, some, str_eq, is_some, if◌then◌else◌,
}
use exchange_router_service.Prelude.Int.{ℤ, ltb_ℤ}
use exchange_router_service.Errors.{Result, ok, raise, validation_error, guard, ◌>>=◌, ◌>>◌}
use exchange_router_service.Models.{
  UsdMethod, QtyUnit, base, contract, FundingKind, discrete, continuous, UsdBasis, QtyValue,
  VolumeValue, OiValue, FundingCurrent, MarkPrice,
}

-- `Literal["base", "contract"]`
unfoldable pub parse_unit : String → Option QtyUnit
parse_unit s =
    if str_eq s "base" then some base else if str_eq s "contract" then some contract else none

abbrev pub is_contract : QtyUnit → Bool
is_contract base = false
is_contract contract = true

-- `Literal["discrete", "continuous"]`
unfoldable pub parse_kind : String → Option FundingKind
parse_kind s =
    if str_eq s "discrete"
    then some discrete
    else if str_eq s "continuous"
    then some continuous
    else none

-- The text of a field with a `Literal` type, or the validation error.
abbrev pub literal {ℓ} : {A : Type ℓ} → Option A → Result A
literal none = raise validation_error
literal (some a) = ok a

-- `_contract_requires_size` of `QtyValue`, `VolumeValue` and `OiValue`
unfoldable pub contract_requires_size : {Float : Type 0} → QtyUnit → Option Float → Bool
contract_requires_size unit size = not (is_contract unit && not (is_some size))

-- `(a is None) != (b is None)` does not hold
abbrev agree : Bool → Bool → Bool
agree true b = b
agree false b = not b

-- a discrete rate is valid at least until the time of its row
abbrev after_timestamp : FundingKind → ℤ → ℤ → Bool
after_timestamp discrete valid_until timestamp = not (ltb_ℤ valid_until timestamp)
after_timestamp continuous valid_until timestamp = true

module _ {Float : Type 0} where
  -- `_close_pair_consistency`
  unfoldable pub make_usd_basis : UsdMethod → Option Float → Option ℤ → Result (UsdBasis Float)
  make_usd_basis method c ts = do
    guard (agree (is_some c) (is_some ts)) validation_error
    ok (record { method = method; close = c; close_ts = ts })

  unfoldable pub make_qty_value : Float → String → Option Float → Float → Result (QtyValue Float)
  unfolding contract_requires_size parse_unit
  make_qty_value native unit size usd = do
    u ← literal (parse_unit unit)
    guard (contract_requires_size u size) validation_error
    ok (record { native = native; unit = u; contract_size = size; usd = usd })

  unfoldable pub make_volume_value :
      Float → String → Option Float → Float → UsdBasis Float → Result (VolumeValue Float)
  unfolding contract_requires_size parse_unit
  make_volume_value native unit size usd basis = do
    u ← literal (parse_unit unit)
    guard (contract_requires_size u size) validation_error
    ok (record { native = native; unit = u; contract_size = size; usd = usd; usd_basis = basis })

  unfoldable pub make_oi_value :
      Float → String → Option Float → Option Float → UsdBasis Float → Result (OiValue Float)
  unfolding contract_requires_size parse_unit
  make_oi_value native unit size usd basis = do
    u ← literal (parse_unit unit)
    guard (contract_requires_size u size) validation_error
    ok (record { native = native; unit = u; contract_size = size; usd = usd; usd_basis = basis })

  -- `_funding_valid_until_after_timestamp`
  unfoldable pub funding_valid_until_after_timestamp : Option (FundingCurrent Float) → ℤ → Bool
  funding_valid_until_after_timestamp none timestamp = true
  funding_valid_until_after_timestamp (some f) timestamp =
      after_timestamp f.kind f.valid_until_ts timestamp

  unfoldable pub make_mark_price : MarkPrice Float → Result (MarkPrice Float)
  unfolding funding_valid_until_after_timestamp
  make_mark_price m = do
    guard (funding_valid_until_after_timestamp m.funding m.timestamp) validation_error
    ok m
