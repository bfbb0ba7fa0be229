-- ===== src/Models/Explained.antt =====
-- What the value objects of src/models.py promise about their notional, and that the builders of
-- src/exchanges/base.py keep it.
use exchange_router_service.Prelude.{
  String, ◌≡◌, ◌≢◌, refl, inl, inr, true, false, Option, none, some, arith, str_eq, str_eq_iff,
  is_some, Bool-cases, ◌⊎◌,
}
use exchange_router_service.Prelude.Int.{ℤ}
use exchange_router_service.Errors.{ok, raise, value_error}
use exchange_router_service.Floats.{Floats}
use exchange_router_service.Models.{
  UsdMethod, close, contract_size, candle_close, QtyUnit, base, contract, QtyValue, VolumeValue,
  OiValue,
}
use exchange_router_service.Models.Values.{build_qty_value, build_volume_value, build_oi_value}
use exchange_router_service.Models.Validators.{
  parse_unit, is_contract, make_usd_basis, make_qty_value, make_volume_value, make_oi_value,
}

-- The text of a unit, as the builders tell it apart.
pub unit_cases :
    (unit : String)
    → ((str_eq unit "contract" ≡ true) × (parse_unit unit ≡ some contract))
      ⊎ ((str_eq unit "contract" ≡ false) × (parse_unit unit ≢ some contract))
unfolding parse_unit
unit_cases unit = elim (Bool-cases (str_eq unit "contract")) [
  | inl e ↦ inl (e, rw ((str_eq_iff unit "contract").0 e))
  | inr e ↦ inr (e, ground arith)
]

-- the method of the basis: the size on contracts, another factor on a base unit
abbrev pub basis_method : QtyUnit → UsdMethod → UsdMethod
basis_method base m = m
basis_method contract m = contract_size

abbrev pub oi_factor : {Float : Type 0} → QtyUnit → Option Float → Option Float → Option Float
oi_factor base size candle = candle
oi_factor contract size candle = size

module _ (F : Floats) where
  open F use {Float, mul}

  -- the factor that turns `native` into the notional: the contract size, or the price
  abbrev pub factor : QtyUnit → Option Float → Float → Option Float
  factor base size price = some price
  factor contract size price = size

  abbrev pub times_native : Float → Option Float → Option Float
  times_native native none = none
  times_native native (some x) = some (mul native x)

  -- Whenever a quantity is built, its native figure is the upstream's, the contract size stands in
  -- it exactly when the unit is the contract, and the notional is the native figure times the
  -- contract size, or times the price for a quantity in the base asset.
  pub build_qty_value_ok :
      (native : Float) (unit : String) (size : Option Float) (price : Float) {q : QtyValue Float}
      → build_qty_value F native unit size price ≡ ok q
      → (q.native ≡ native)
        × (is_some q.contract_size ≡ is_contract q.unit)
        × (some q.usd ≡ times_native q.native (factor q.unit q.contract_size price))
  unfolding build_qty_value make_qty_value
  build_qty_value_ok native unit size price h = ground (arith, unit_cases unit)

  -- The same for a volume, with the close in place of the price; its `usd_basis` names the factor
  -- that was used, and carries no close of its own.
  pub build_volume_value_ok :
      (native : Float) (unit : String) (size : Option Float) (close_price : Float)
      {q : VolumeValue Float}
      → build_volume_value F native unit size close_price ≡ ok q
      → (q.native ≡ native)
        × (is_some q.contract_size ≡ is_contract q.unit)
        × (some q.usd ≡ times_native q.native (factor q.unit q.contract_size close_price))
        × (q.usd_basis.method ≡ basis_method q.unit close)
        × (q.usd_basis.close ≡ none)
        × (q.usd_basis.close_ts ≡ none)
  unfolding build_volume_value make_volume_value make_usd_basis
  build_volume_value_ok native unit size close_price h = ground (arith, unit_cases unit)

  -- An open interest is explained by its own basis: on contracts the notional is native times the
  -- size; on a base unit it is native times the close that the basis carries, and absent exactly
  -- where the basis carries none. Close and close time are both there or both absent.
  build_oi_value_ok :
      (native : Float) (unit : String) (size candle : Option Float) (candle_ts : Option ℤ)
      {q : OiValue Float}
      → build_oi_value F native unit size candle candle_ts ≡ ok q
      → (q.native ≡ native)
        × (is_some q.contract_size ≡ is_contract q.unit)
        × (q.usd ≡ times_native q.native (oi_factor q.unit q.contract_size q.usd_basis.close))
        × (q.usd_basis.method ≡ basis_method q.unit candle_close)
        × (is_some q.usd_basis.close ≡ is_some q.usd_basis.close_ts)
  unfolding build_oi_value make_oi_value make_usd_basis
  build_oi_value_ok native unit size candle candle_ts h = ground (arith, unit_cases unit)

  -- A quantity in one of the two units is always built, but for contracts without a size, which
  -- raise `ValueError`; the model's own validator never refuses it.
  pub build_qty_value_total :
      (native : Float) (unit : String) (size : Option Float) (price : Float) (u : QtyUnit)
      → parse_unit unit ≡ some u
      → (build_qty_value F native unit size price ≡ raise value_error)
          × (u ≡ contract)
          × (size ≡ none)
        ⊎ ((q : QtyValue Float) × (build_qty_value F native unit size price ≡ ok q) × (q.unit ≡ u))
  unfolding build_qty_value make_qty_value
  build_qty_value_total native unit none price contract e =
      inl (ground (arith, unit_cases unit), refl, refl)
  build_qty_value_total native unit (some s) price contract e = inr (
    record { native = native; unit = contract; contract_size = some s; usd = mul native s },
    ground (arith, unit_cases unit),
    refl,
  )
  build_qty_value_total native unit size price base e = inr (
    record { native = native; unit = base; contract_size = none; usd = mul native price },
    ground (arith, unit_cases unit),
    refl,
  )
