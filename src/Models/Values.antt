-- ===== src/Models/Values.antt =====
-- src/exchanges/base.py: the builders of the nested value objects, which attach a quote-currency
-- notional to a quantity of the exchange.
use exchange_router_service.Prelude.{String, Option, none, some, str_eq, if◌then◌else◌}
use exchange_router_service.Prelude.Int.{ℤ}
use exchange_router_service.Errors.{Result, ok, raise, value_error, ◌>>=◌}
use exchange_router_service.Floats.{Floats}
use exchange_router_service.Models.{
  close, contract_size, candle_close, QtyValue, VolumeValue, OiValue, FundingCurrent,
  FundingHistorical, FundingConvention,
}
use exchange_router_service.Models.Validators.{
  parse_kind, literal, make_usd_basis, make_qty_value, make_volume_value, make_oi_value,
}

module _ (F : Floats) where
  open F use {Float, mul}

  -- `contract_size` where the unit wants it
  abbrev pub required : Option Float → Result Float
  required none = raise value_error
  required (some size) = ok size

  unfoldable pub build_qty_value : Float → String → Option Float → Float → Result (QtyValue Float)
  build_qty_value native qty_unit size price =
      if str_eq qty_unit "contract"
      then (do s ← required size; make_qty_value native qty_unit size (mul native s))
      else make_qty_value native qty_unit none (mul native price)

  unfoldable pub build_volume_value :
      Float → String → Option Float → Float → Result (VolumeValue Float)
  build_volume_value native volume_unit size close_price =
      if str_eq volume_unit "contract"
      then (do
        s ← required size
        basis ← make_usd_basis contract_size none none
        make_volume_value native volume_unit size (mul native s) basis)
      else (do
        basis ← make_usd_basis close none none
        make_volume_value native volume_unit none (mul native close_price) basis)

  -- the join with a candle: both its close and its close time, or neither
  abbrev pub joined : Option Float → Option ℤ → Option (Float × ℤ)
  joined (some c) (some ts) = some (c, ts)
  joined (some c) none = none
  joined none ts = none

  unfoldable pub build_oi_value :
      Float → String → Option Float → Option Float → Option ℤ → Result (OiValue Float)
  build_oi_value native oi_unit size candle candle_ts =
      if str_eq oi_unit "contract"
      then (do
        s ← required size
        basis ← make_usd_basis contract_size none none
        make_oi_value native oi_unit size (some (mul native s)) basis)
      else elim (joined candle candle_ts) [
        | some (c, ts) ↦ (do
          basis ← make_usd_basis candle_close (some c) (some ts)
          make_oi_value native oi_unit none (some (mul native c)) basis)
        | none ↦ (do
          basis ← make_usd_basis candle_close none none
          make_oi_value native oi_unit none none basis)
      ]

  unfoldable pub build_funding_current : String → Float → ℤ → ℤ → Result (FundingCurrent Float)
  build_funding_current kind per_cycle cycle_ms valid_until_ts = do
    k ← literal (parse_kind kind)
    ok (record {
      kind = k;
      per_cycle = per_cycle;
      cycle_ms = cycle_ms;
      valid_until_ts = valid_until_ts;
    })

  unfoldable pub build_funding_historical : String → Float → ℤ → Result (FundingHistorical Float)
  build_funding_historical kind per_cycle cycle_ms = do
    k ← literal (parse_kind kind)
    ok (record { kind = k; per_cycle = per_cycle; cycle_ms = cycle_ms })

unfoldable pub build_funding_convention : String → Result FundingConvention
build_funding_convention kind = do k ← literal (parse_kind kind); ok (record { kind = k })
