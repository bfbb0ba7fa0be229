-- ===== src/Kraken/Intervals.antt =====
-- src/exchanges/kraken/adapter.py: the intervals as Kraken counts them.
use exchange_router_service.Prelude.{ℕ, String, [], ◌∷◌, string_has_eq}
use exchange_router_service.Prelude.Dict.{Dict, get}
use exchange_router_service.Errors.{Result}
use exchange_router_service.Capabilities.{mapped}

abbrev spot_minutes : Dict String ℕ
spot_minutes =
    ("1m", 1)
    ∷ ("5m", 5)
    ∷ ("15m", 15)
    ∷ ("30m", 30)
    ∷ ("1h", 60)
    ∷ ("4h", 240)
    ∷ ("1d", 1440)
    ∷ ("1w", 10080)
    ∷ []

abbrev analytics_seconds : Dict String ℕ
analytics_seconds =
    ("1m", 60)
    ∷ ("5m", 300)
    ∷ ("15m", 900)
    ∷ ("30m", 1800)
    ∷ ("1h", 3600)
    ∷ ("4h", 14400)
    ∷ ("12h", 43200)
    ∷ ("1d", 86400)
    ∷ []

-- `interval_secs_map` of `get_candles`
abbrev futures_seconds : Dict String ℕ
futures_seconds =
    ("1m", 60)
    ∷ ("5m", 300)
    ∷ ("15m", 900)
    ∷ ("30m", 1800)
    ∷ ("1h", 3600)
    ∷ ("4h", 14400)
    ∷ ("12h", 43200)
    ∷ ("1d", 86400)
    ∷ ("1w", 604800)
    ∷ []

-- `_map_spot_interval`, in minutes
unfoldable pub map_spot_interval : String → Result ℕ
unfolding get
map_spot_interval interval = mapped (get interval spot_minutes)

-- `_map_analytics_interval`, in seconds
unfoldable pub map_analytics_interval : String → Result ℕ
unfolding get
map_analytics_interval interval = mapped (get interval analytics_seconds)

-- the seconds of an interval of the candles of futures
unfoldable pub map_futures_interval : String → Result ℕ
unfolding get
map_futures_interval interval = mapped (get interval futures_seconds)
