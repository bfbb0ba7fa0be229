-- ===== src/Examples/Joins.antt =====
-- Runs of the builders (src/exchanges/base.py) and of the join of open interest with candles
-- (src/main.py), on whole numbers.
use exchange_router_service.Prelude.{◌≡◌, none, [], ◌∷◌, map}
use exchange_router_service.Prelude.Int.{ℤ, pos}
use exchange_router_service.Errors.{ok}
use exchange_router_service.Models.{
  linear, base, close, candle_close, VolumeValue, Candle, OpenInterest,
}
use exchange_router_service.Router.Periods.{period_to_ms}
use exchange_router_service.Router.OiRoute.{codes, period_or, with_candles}
use exchange_router_service.Router.OiJoin.{close_at, revalued, with_candles_lem}
use exchange_router_service.Examples.{integers}

abbrev volume : VolumeValue ℤ
volume = record {
  native = pos 3;
  unit = base;
  contract_size = none;
  usd = pos 300;
  usd_basis = record { method = close; close = none; close_ts = none };
}

abbrev row : OpenInterest ℤ
row = record {
  symbol = "BTC";
  market_type = linear;
  quote = "USDT";
  interval = "1m";
  open_interest = record {
    native = pos 3;
    unit = base;
    contract_size = none;
    usd = none;
    usd_basis = record { method = candle_close; close = none; close_ts = none };
  };
  timestamp = pos 60_000;
}

abbrev candle : ℤ → ℤ → Candle ℤ
candle ts price = record {
  symbol = "BTC";
  market_type = linear;
  quote = "USDT";
  interval = "1m";
  timestamp = ts;
  open_price = price;
  high = price;
  low = price;
  close = price;
  volume = volume;
}

with_candles_lem_example :
    with_candles integers "1m"
      (row ∷ [])
      (ok (candle (pos 0) (pos 100) ∷ candle (pos 60_000) (pos 101) ∷ []))
    ≡ ok (
        map
          (λ r. revalued integers r (
            close_at integers
              (period_or integers
                (period_to_ms (codes "1m"))
                (candle (pos 0) (pos 100))
                (candle (pos 60_000) (pos 101)))
              r.timestamp
              (candle (pos 0) (pos 100) ∷ candle (pos 60_000) (pos 101) ∷ [])))
          (row ∷ []))
with_candles_lem_example =
    with_candles_lem integers "1m" (row ∷ []) (candle (pos 0) (pos 100))
      (candle (pos 60_000) (pos 101)) [] (tt, tt)
