-- ===== src/Examples/Intervals.antt =====
-- Runs of the capability tables and of the texts of intervals.
use exchange_router_service.Prelude.{◌≡◌, refl, some, string_has_eq}
use exchange_router_service.Prelude.Int.{pos}
use exchange_router_service.Prelude.Dict.{get}
use exchange_router_service.Models.{linear, spot, market_value}
use exchange_router_service.Router.{route_block, interval_allowed, mem_text}
use exchange_router_service.Router.Periods.{period_to_ms}
use exchange_router_service.Capabilities.{codes, interval_to_ms_of_binance}
use exchange_router_service.Capabilities.Advertised.{okx, to_ms, oi_periods_agree}
use exchange_router_service.Capabilities.Spelled.{
  KucoinCandles, KrakenCandles, kucoin_candles, kraken_candles,
}

oi_periods_agree_example : period_to_ms (codes "5m") ≡ some (to_ms okx "5m")
unfolding route_block get mem_text
oi_periods_agree_example = oi_periods_agree okx "linear" "5m" _ refl refl

kucoin_candles_example : KucoinCandles linear "4h"
unfolding route_block get interval_allowed mem_text market_value
kucoin_candles_example = kucoin_candles linear "4h" refl

kraken_candles_example : KrakenCandles spot "1d"
unfolding route_block get interval_allowed mem_text market_value
kraken_candles_example = kraken_candles spot "1d" refl

second_test : interval_to_ms_of_binance "1s" ≡ pos 1000
unfolding interval_to_ms_of_binance
second_test = refl
