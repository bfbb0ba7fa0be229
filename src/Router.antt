-- ===== src/Router.antt =====
-- src/main.py: the request handlers, over the adapters of src/exchanges/__init__.py's registry. An
-- adapter is a record of its methods, and the upstream behind it answers through them.
pub mod Periods
pub mod OiRoute
pub mod OiJoin
pub mod Status
pub mod Routes
pub mod Refusals
pub mod WebSocket
pub mod Overview
use exchange_router_service.Prelude.{
  ℕ, ◌≡◌, String, Bool, true, false, ◌&&◌, ◌||◌, not, Option, none, some, List, [], ◌∷◌, map,
  str_eq, if◌then◌else◌, string_has_eq, length,
}
use exchange_router_service.Prelude.Int.{ℤ, pos, ltb_ℤ}
use exchange_router_service.Prelude.Dict.{Dict, get}
use exchange_router_service.Errors.{
  Error, Result, ok, raise, value_error, not_implemented, http_exception, attribute_error, guard,
  ◌>>=◌, ◌>>◌,
}
use exchange_router_service.Models.{
  MarketType, market_eq, market_value, Ticker, BookTicker, MarkPrice, Trade, AggTrade, Candle,
  OrderBook, FundingRate, OpenInterest, Liquidation, LongShortRatio, SymbolInfo,
}

-- the part of a route's capability block that the service and its client read
pub record RouteBlock : Type 0 where
  pub rest : Option Bool
  pub ws : Option Bool
  pub paginated : Option Bool
  pub intervals : Option (List String)
  pub depths : Option (List ℤ)
  pub max_depth : Option ℕ
  pub max_limit : Option ℕ
  pub retention_ms : Option ℕ
  pub completeness : Option String

abbrev pub Capabilities : Type 0
Capabilities = Dict String (Dict String RouteBlock)

abbrev pub no_block : RouteBlock
no_block = record {
  rest = none;
  ws = none;
  paginated = none;
  intervals = none;
  depths = none;
  max_depth = none;
  max_limit = none;
  retention_ms = none;
  completeness = none;
}

abbrev pub block_or_empty : Option RouteBlock → RouteBlock
block_or_empty none = no_block
block_or_empty (some b) = b

abbrev pub routes_or_empty : Option (Dict String RouteBlock) → Dict String RouteBlock
routes_or_empty none = []
routes_or_empty (some d) = d

-- `markets_block.get(market_type) or markets_block.get(market_type.value) or {}`; a `MarketType` is
-- a text with the hash of its value, so both lookups find the same entry
unfoldable pub route_block : Capabilities → String → String → RouteBlock
route_block capabilities market route =
    block_or_empty (get route (routes_or_empty (get market capabilities)))

-- `BaseExchange` as main.py calls it
pub record Adapter (Float : Type 0) : Type 0 where
  pub name : String
  pub supported_market_types : List MarketType
  pub capabilities : Capabilities
  pub get_exchange_info : MarketType → Result (List (SymbolInfo Float))
  pub get_symbol_info : MarketType → String → Result (SymbolInfo Float)
  pub get_ticker : MarketType → String → Result (Ticker Float)
  pub get_book_ticker : MarketType → String → Result (BookTicker Float)
  pub get_mark_price : MarketType → String → Result (MarkPrice Float)
  pub get_orderbook : MarketType → String → ℤ → Result (OrderBook Float)
  pub get_trades : MarketType → String → ℤ → Result (List (Trade Float))
  pub get_agg_trades : MarketType → String → Option ℤ → ℤ → Result (List (AggTrade Float))
  pub get_candles : MarketType → String → String → Option ℤ → ℤ → Result (List (Candle Float))
  pub get_open_interest :
      MarketType → String → String → Option ℤ → ℤ → Result (List (OpenInterest Float))
  pub get_funding_rate : MarketType → String → Option ℤ → ℤ → Result (List (FundingRate Float))
  pub get_liquidations : MarketType → String → Option ℤ → ℤ → Result (List (Liquidation Float))
  pub get_long_short_ratio :
      MarketType → String → String → Option ℤ → ℤ → Result (List (LongShortRatio Float))

unfoldable pub supports : MarketType → List MarketType → Bool
supports mt [] = false
supports mt (x ∷ xs) = if market_eq x mt then true else supports mt xs

unfoldable pub mem_text : String → List String → Bool
mem_text s [] = false
mem_text s (x ∷ xs) = if str_eq x s then true else mem_text s xs

-- `intervals and value not in intervals`
unfoldable pub interval_allowed : Option (List String) → String → Bool
unfolding mem_text
interval_allowed none value = true
interval_allowed (some []) value = true
interval_allowed (some (i ∷ is)) value = mem_text value (i ∷ is)

module _ {Float : Type 0} where
  abbrev supported : MarketType → Adapter Float → Result (Adapter Float)
  supported mt a = if supports mt a.supported_market_types then ok a else raise (http_exception 400)

  abbrev found : Option (Adapter Float) → Result (Adapter Float)
  found none = raise (http_exception 404)
  found (some a) = ok a

  -- `validate_request`
  unfoldable pub validate_request :
      Dict String (Adapter Float) → String → MarketType → Result (Adapter Float)
  unfolding supports
  validate_request registry exchange mt = do a ← found (get exchange registry); supported mt a

  -- `validate_interval`
  unfoldable pub validate_interval :
      Adapter Float → MarketType → String → String → Result (Unit {0})
  unfolding interval_allowed route_block
  validate_interval a mt route value =
      guard (interval_allowed (route_block a.capabilities (market_value mt) route).intervals value)
        value_error
