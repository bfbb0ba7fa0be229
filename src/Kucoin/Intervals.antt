-- ===== src/Kucoin/Intervals.antt =====
-- src/exchanges/kucoin/adapter.py: the intervals as KuCoin spells them.
use exchange_router_service.Prelude.{ℕ, String, [], ◌∷◌, string_has_eq}
use exchange_router_service.Prelude.Dict.{Dict, get}
use exchange_router_service.Errors.{Result}
use exchange_router_service.Capabilities.{mapped}

abbrev spot_intervals : Dict String String
spot_intervals =
    ("1m", "1min")
    ∷ ("3m", "3min")
    ∷ ("5m", "5min")
    ∷ ("15m", "15min")
    ∷ ("30m", "30min")
    ∷ ("1h", "1hour")
    ∷ ("2h", "2hour")
    ∷ ("4h", "4hour")
    ∷ ("6h", "6hour")
    ∷ ("8h", "8hour")
    ∷ ("12h", "12hour")
    ∷ ("1d", "1day")
    ∷ ("1w", "1week")
    ∷ []

abbrev granularities : Dict String ℕ
granularities =
    ("1m", 1)
    ∷ ("5m", 5)
    ∷ ("15m", 15)
    ∷ ("30m", 30)
    ∷ ("1h", 60)
    ∷ ("2h", 120)
    ∷ ("4h", 240)
    ∷ ("8h", 480)
    ∷ ("12h", 720)
    ∷ ("1d", 1440)
    ∷ ("1w", 10080)
    ∷ []

abbrev oi_intervals : Dict String String
oi_intervals =
    ("5m", "5min")
    ∷ ("15m", "15min")
    ∷ ("30m", "30min")
    ∷ ("1h", "1hour")
    ∷ ("4h", "4hour")
    ∷ ("1d", "1day")
    ∷ []

-- `_map_spot_interval`
unfoldable pub map_spot_interval : String → Result String
unfolding get
map_spot_interval interval = mapped (get interval spot_intervals)

-- `_map_futures_granularity`, in minutes
unfoldable pub map_futures_granularity : String → Result ℕ
unfolding get
map_futures_granularity interval = mapped (get interval granularities)

-- `_map_oi_interval`
unfoldable pub map_oi_interval : String → Result String
unfolding get
map_oi_interval period = mapped (get period oi_intervals)
