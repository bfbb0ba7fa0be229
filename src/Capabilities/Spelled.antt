-- ===== src/Capabilities/Spelled.antt =====
-- The intervals that KuCoin and Kraken list, as their adapters spell them for the upstream
-- (src/exchanges/kucoin/adapter.py, src/exchanges/kraken/adapter.py).
use exchange_router_service.Prelude.{
  ◌≢◌, ◌⊎◌, ℕ, ◌*◌, String, Bool, true, false, ◌≡◌, refl, Option, none, some, List, [], ◌∷◌, inl,
  inr, string_has_eq,
}
use exchange_router_service.Prelude.Int.{pos, eqb_ℤ, eqb_ℤ_iff}
use exchange_router_service.Errors.{Result, ok, raise}
use exchange_router_service.Models.{MarketType, spot, linear, inverse, market_value}
use exchange_router_service.Router.{route_block, interval_allowed}
use exchange_router_service.Capabilities.{interval_to_ms}
use exchange_router_service.Capabilities.Advertised.{all_pass, all_pass-mem}
use exchange_router_service.Capabilities.Kraken as KrakenTable
use exchange_router_service.Capabilities.Kucoin as KucoinTable
use exchange_router_service.Kraken.Intervals as Kraken
use exchange_router_service.Kucoin.Intervals as Kucoin

is_ok : {A : Type 0} → Result A → Bool
is_ok (ok a) = true
is_ok (raise e) = false

read_ok : {A : Type 0} (r : Result A) → is_ok r ≡ true → (a : A) × (r ≡ ok a)
unfolding is_ok
read_ok (ok a) h = (a, refl)
read_ok (raise e) h = cc

-- An interval is spelled as a number of units of some milliseconds.
abbrev pub SpelledAs : ℕ → Result ℕ → String → Type 0
SpelledAs unit r i = (n : ℕ) × (r ≡ ok n) × (interval_to_ms i ≡ pos (n * unit))

is_spelled : ℕ → Result ℕ → String → Bool
is_spelled unit (ok n) i = eqb_ℤ (interval_to_ms i) (pos (n * unit))
is_spelled unit (raise e) i = false

read_spelled :
    (unit : ℕ) (r : Result ℕ) (i : String) → is_spelled unit r i ≡ true → SpelledAs unit r i
unfolding is_spelled
read_spelled unit (ok n) i h = (n, refl, (eqb_ℤ_iff (interval_to_ms i) (pos (n * unit))).0 h)
read_spelled unit (raise e) i h = cc

-- what `_get_candles_spot` and `_get_candles_futures` of KuCoin ask for an interval
abbrev pub KucoinCandles : MarketType → String → Type 0
KucoinCandles spot i = (t : String) × (Kucoin.map_spot_interval i ≡ ok t)
KucoinCandles linear i = SpelledAs 60_000 (Kucoin.map_futures_granularity i) i
KucoinCandles inverse i = SpelledAs 60_000 (Kucoin.map_futures_granularity i) i

-- the seconds that `get_candles` of Kraken asks for futures, and the minutes for spot
abbrev pub KrakenCandles : MarketType → String → Type 0
KrakenCandles spot i = SpelledAs 60_000 (Kraken.map_spot_interval i) i
KrakenCandles linear i = SpelledAs 1000 (Kraken.map_futures_interval i) i
KrakenCandles inverse i = SpelledAs 1000 (Kraken.map_futures_interval i) i

-- a list that is not empty, whose members pass a test
passes : (String → Bool) → Option (List String) → Bool
unfolding all_pass
passes test none = false
passes test (some []) = false
passes test (some (i ∷ is)) = all_pass test (i ∷ is)

passes-allowed :
    (test : String → Bool) (o : Option (List String)) (i : String)
    → passes test o ≡ true
    → interval_allowed o i ≡ true
    → test i ≡ true
unfolding passes interval_allowed
passes-allowed test none i p h = cc
passes-allowed test (some []) i p h = cc
passes-allowed test (some (x ∷ xs)) i p h = all_pass-mem test i (x ∷ xs) p h

module _ (mt : MarketType) where
  abbrev kucoin_listed : String → Option (List String)
  kucoin_listed route = (route_block KucoinTable.capabilities (market_value mt) route).intervals

  abbrev kraken_listed : String → Option (List String)
  kraken_listed route = (route_block KrakenTable.capabilities (market_value mt) route).intervals

kucoin_names :
    passes (λ i. is_ok (Kucoin.map_spot_interval i)) (kucoin_listed spot "candles") ≡ true
unfolding passes is_ok Kucoin.map_spot_interval route_block market_value
kucoin_names = refl

kucoin_minutes :
    (mt : MarketType)
    → mt ≢ spot
    → passes
        (λ i. is_spelled 60_000 (Kucoin.map_futures_granularity i) i)
        (kucoin_listed mt "candles")
      ≡ true
unfolding passes is_spelled Kucoin.map_futures_granularity route_block market_value interval_to_ms
kucoin_minutes spot h = absurd (h refl)
kucoin_minutes linear h = refl
kucoin_minutes inverse h = refl

kraken_minutes :
    passes (λ i. is_spelled 60_000 (Kraken.map_spot_interval i) i) (kraken_listed spot "candles")
    ≡ true
unfolding passes is_spelled Kraken.map_spot_interval route_block market_value interval_to_ms
kraken_minutes = refl

kraken_seconds :
    (mt : MarketType)
    → mt ≢ spot
    → passes (λ i. is_spelled 1000 (Kraken.map_futures_interval i) i) (kraken_listed mt "candles")
      ≡ true
unfolding passes is_spelled Kraken.map_futures_interval route_block market_value interval_to_ms
kraken_seconds spot h = absurd (h refl)
kraken_seconds linear h = refl
kraken_seconds inverse h = refl

kraken_analytics :
    (mt : MarketType)
    → mt ≢ spot
    → (passes
          (λ i. is_spelled 1000 (Kraken.map_analytics_interval i) i)
          (kraken_listed mt "open_interest")
        ≡ true)
      × (passes
            (λ i. is_spelled 1000 (Kraken.map_analytics_interval i) i)
            (kraken_listed mt "long_short_ratio")
          ≡ true)
unfolding passes is_spelled Kraken.map_analytics_interval route_block market_value interval_to_ms
kraken_analytics spot h = absurd (h refl)
kraken_analytics linear h = (refl, refl)
kraken_analytics inverse h = (refl, refl)

spelled_listed :
    (unit : ℕ) (f : String → Result ℕ) (o : Option (List String)) (i : String)
    → passes (λ j. is_spelled unit (f j) j) o ≡ true
    → interval_allowed o i ≡ true
    → SpelledAs unit (f i) i
spelled_listed unit f o i p h =
    read_spelled unit (f i) i (passes-allowed (λ j. is_spelled unit (f j) j) o i p h)

-- A candle interval that `validate_interval` lets through for KuCoin is one that the adapter can ask
-- for: the spot market has a name for it, the futures markets a number of minutes, which is as long
-- as `_interval_to_ms` says.
pub kucoin_candles :
    (mt : MarketType) (i : String)
    → interval_allowed
        (route_block KucoinTable.capabilities (market_value mt) "candles").intervals
        i
      ≡ true
    → KucoinCandles mt i
kucoin_candles spot i h = read_ok (Kucoin.map_spot_interval i) (
    passes-allowed (λ j. is_ok (Kucoin.map_spot_interval j)) (kucoin_listed spot "candles") i
      kucoin_names h)
kucoin_candles linear i h =
    spelled_listed 60_000 Kucoin.map_futures_granularity _ i (kucoin_minutes linear (λ e. cc)) h
kucoin_candles inverse i h =
    spelled_listed 60_000 Kucoin.map_futures_granularity _ i (kucoin_minutes inverse (λ e. cc)) h

-- A candle interval that `validate_interval` lets through for Kraken is one that the adapter can ask
-- for, in minutes on the spot market and in seconds on the futures markets, and either is as long as
-- `_interval_to_ms` says.
pub kraken_candles :
    (mt : MarketType) (i : String)
    → interval_allowed
        (route_block KrakenTable.capabilities (market_value mt) "candles").intervals
        i
      ≡ true
    → KrakenCandles mt i
kraken_candles spot i h = spelled_listed 60_000 Kraken.map_spot_interval _ i kraken_minutes h
kraken_candles linear i h =
    spelled_listed 1000 Kraken.map_futures_interval _ i (kraken_seconds linear (λ e. cc)) h
kraken_candles inverse i h =
    spelled_listed 1000 Kraken.map_futures_interval _ i (kraken_seconds inverse (λ e. cc)) h

-- A period that `validate_interval` lets through for the open interest or the long/short ratio of a
-- futures market of Kraken is one that its analytics have, in seconds.
kraken_periods :
    (mt : MarketType) (i : String)
    → mt ≢ spot
    → (interval_allowed (kraken_listed mt "open_interest") i ≡ true)
      ⊎ (interval_allowed (kraken_listed mt "long_short_ratio") i ≡ true)
    → SpelledAs 1000 (Kraken.map_analytics_interval i) i
kraken_periods mt i futures (inl h) =
    spelled_listed 1000 Kraken.map_analytics_interval _ i (kraken_analytics mt futures).0 h
kraken_periods mt i futures (inr h) =
    spelled_listed 1000 Kraken.map_analytics_interval _ i (kraken_analytics mt futures).1 h
