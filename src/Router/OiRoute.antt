-- ===== src/Router/OiRoute.antt =====
-- src/main.py: the handler of `/open_interest`, which joins linear rows with the closes of candles.
use exchange_router_service.Prelude.{ℕ, String, Option, none, some, List, [], ◌∷◌, if◌then◌else◌}
use exchange_router_service.Prelude.Int.{ℤ, pos, ◌+ℤ◌, ◌-ℤ◌, int_has_eq}
use exchange_router_service.Prelude.Dict.{Dict, get, put}
use exchange_router_service.Errors.{Result, ok, raise, ◌>>=◌, ◌>>◌}
use exchange_router_service.Floats.{Floats}
use exchange_router_service.Models.{
  MarketType, linear, market_eq, QtyUnit, base, contract, Candle, OpenInterest,
}
use exchange_router_service.Models.Values.{build_oi_value}
use exchange_router_service.Router.{Adapter, validate_request, validate_interval}
use exchange_router_service.Router.Periods.{period_to_ms}
use Prim.Native.Char.{code}

abbrev pub codes : String → List ℕ
codes String.[] = []
codes (String.◌∷◌ c s) = code c ∷ codes s

-- the text of a unit
abbrev pub unit_text : QtyUnit → String
unit_text base = "base"
unit_text contract = "contract"

module _ (F : Floats) where
  open F use {Float}

  -- `close_by_close_ts`, over the candles but the last
  unfoldable pub closes_from : ℤ → Dict ℤ Float → List (Candle Float) → Dict ℤ Float
  closes_from period d [] = d
  closes_from period d (c ∷ []) = d
  closes_from period d (c ∷ c' ∷ cs) =
      closes_from period (put (c.timestamp +ℤ period) c.close d) (c' ∷ cs)

  -- the value of a row that has a matching close
  unfoldable pub rebuilt : OpenInterest Float → Float → Result (OpenInterest Float)
  rebuilt row close =
      let oi = row.open_interest in
      do
        value ←
            build_oi_value F oi.native (unit_text oi.unit) oi.contract_size (some close)
              (some row.timestamp)
        ok (record row { open_interest = value })

  unfoldable pub join_row : Dict ℤ Float → OpenInterest Float → Result (OpenInterest Float)
  unfolding rebuilt
  join_row closes row = elim (get row.timestamp closes) [
    | none ↦ ok row
    | some close ↦ rebuilt row close
  ]

  unfoldable pub join_rows :
      Dict ℤ Float → List (OpenInterest Float) → Result (List (OpenInterest Float))
  join_rows closes [] = ok []
  join_rows closes (row ∷ rows) = do
    row' ← join_row closes row
    rows' ← join_rows closes rows
    ok (row' ∷ rows')

  -- the length of a period: what its text says, or the distance of the first two candles
  abbrev pub period_or : Option ℤ → Candle Float → Candle Float → ℤ
  period_or (some p) c c' = p
  period_or none c c' = c'.timestamp -ℤ c.timestamp

  -- the join once the candles have been asked for; a failure there leaves the rows as they are
  unfoldable pub with_candles :
      String
      → List (OpenInterest Float)
      → Result (List (Candle Float))
      → Result (List (OpenInterest Float))
  unfolding join_rows closes_from
  with_candles period rows (raise e) = ok rows
  with_candles period rows (ok []) = ok rows
  with_candles period rows (ok (c ∷ [])) = ok rows
  with_candles period rows (ok (c ∷ c' ∷ cs)) =
      join_rows (closes_from (period_or (period_to_ms (codes period)) c c') [] (c ∷ c' ∷ cs)) rows

  unfoldable pub join_if_linear :
      Adapter Float
      → MarketType
      → String
      → String
      → Option ℤ
      → ℤ
      → List (OpenInterest Float)
      → Result (List (OpenInterest Float))
  unfolding with_candles
  join_if_linear a mt symbol period start limit [] = ok []
  join_if_linear a mt symbol period start limit (row ∷ rows) =
      if market_eq mt linear
      then with_candles period (row ∷ rows) (a.get_candles mt symbol period start (limit +ℤ pos 1))
      else ok (row ∷ rows)

  -- `get_open_interest`
  unfoldable pub get_open_interest :
      Dict String (Adapter Float)
      → String
      → MarketType
      → String
      → String
      → Option ℤ
      → ℤ
      → Result (List (OpenInterest Float))
  unfolding join_if_linear
  get_open_interest registry exchange mt symbol period start limit = do
    a ← validate_request registry exchange mt
    validate_interval a mt "open_interest" period
    rows ← a.get_open_interest mt symbol period start limit
    join_if_linear a mt symbol period start limit rows
