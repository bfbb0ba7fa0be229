-- ===== src/Router/Routes.antt =====
-- src/main.py: the market data routes.
use exchange_router_service.Prelude.{
  ℕ, String, Bool, true, Option, none, some, List, map, length, string_has_eq,
}
use exchange_router_service.Prelude.Int.{ℤ, pos, ltb_ℤ}
use exchange_router_service.Prelude.Dict.{Dict}
use exchange_router_service.Errors.{Result, ok, http_exception, guard, ◌>>=◌, ◌>>◌}
use exchange_router_service.Floats.{Floats}
use exchange_router_service.Models.{
  MarketType, market_value, Ticker, BookTicker, MarkPrice, Trade, AggTrade, Candle, OrderBook,
  FundingRate, OpenInterest, Liquidation, LongShortRatio, SymbolInfo, FundingConvention, QtyUnit,
  FundingKind,
}
use exchange_router_service.Router.{Adapter, validate_request, validate_interval}
use exchange_router_service.Router.OiRoute.{get_open_interest}

-- `_symbol_info_to_lite`
pub record SymbolLite (Float : Type 0) : Type 0 where
  pub symbol : String
  pub base_asset : String
  pub quote_asset : String
  pub qty_unit : QtyUnit
  pub contract_size : Option Float
  pub funding : Option FundingKind

abbrev kind_of : Option FundingConvention → Option FundingKind
kind_of none = none
kind_of (some f) = some f.kind

-- the requests under `/{exchange}/{market_type}`
pub data Request : Type 0 where
  markets : Request
  market_symbol ticker book_ticker mark_price : String → Request
  orderbook : String → ℤ → Request
  trades : String → ℤ → Request
  agg_trades : String → Option ℤ → ℤ → Request
  candles : String → String → Option ℤ → ℤ → Request
  open_interest : String → String → Option ℤ → ℤ → Request
  funding_rate : String → Option ℤ → ℤ → Request
  liquidations : String → Option ℤ → ℤ → Request
  long_short_ratio : String → String → Option ℤ → ℤ → Request

module _ {Float : Type 0} where
  unfoldable pub symbol_info_to_lite : SymbolInfo Float → SymbolLite Float
  symbol_info_to_lite info = record {
    symbol = info.symbol;
    base_asset = info.base_asset;
    quote_asset = info.quote_asset;
    qty_unit = info.qty_unit;
    contract_size = info.contract_size;
    funding = kind_of info.funding;
  }

-- the bodies of the responses; `markets` has the exchange, the market, the count and the entries
pub data Body (Float : Type 0) : Type 0 where
  markets_body : String → String → ℕ → List (SymbolLite Float) → Body Float
  symbol_body : SymbolInfo Float → Body Float
  ticker_body : Ticker Float → Body Float
  book_ticker_body : BookTicker Float → Body Float
  mark_price_body : MarkPrice Float → Body Float
  orderbook_body : OrderBook Float → Body Float
  trades_body : List (Trade Float) → Body Float
  agg_trades_body : List (AggTrade Float) → Body Float
  candles_body : List (Candle Float) → Body Float
  open_interest_body : List (OpenInterest Float) → Body Float
  funding_rate_body : List (FundingRate Float) → Body Float
  liquidations_body : List (Liquidation Float) → Body Float
  long_short_ratio_body : List (LongShortRatio Float) → Body Float

-- the bound `Query(..., ge=1)` on a depth or a limit, which fastapi checks before the handler runs
abbrev pub bound_of : Request → Option ℤ
bound_of markets = none
bound_of (market_symbol s) = none
bound_of (ticker s) = none
bound_of (book_ticker s) = none
bound_of (mark_price s) = none
bound_of (orderbook s depth) = some depth
bound_of (trades s limit) = some limit
bound_of (agg_trades s start limit) = some limit
bound_of (candles s interval start limit) = some limit
bound_of (open_interest s period start limit) = some limit
bound_of (funding_rate s start limit) = some limit
bound_of (liquidations s start limit) = some limit
bound_of (long_short_ratio s period start limit) = some limit

abbrev pub in_bound : Option ℤ → Bool
in_bound none = true
in_bound (some n) = ltb_ℤ (pos 0) n

module _ (F : Floats) (registry : Dict String (Adapter F.Float)) (exchange : String)
    (mt : MarketType) where
  open F use {Float}

  abbrev adapter : Result (Adapter Float)
  adapter = validate_request registry exchange mt

  unfoldable pub run_request : Request → Result (Body Float)
  unfolding symbol_info_to_lite
  run_request markets = do
    a ← adapter
    infos ← a.get_exchange_info mt
    ok (markets_body exchange (market_value mt) (length infos) (map symbol_info_to_lite infos))
  run_request (market_symbol s) = do a ← adapter; r ← a.get_symbol_info mt s; ok (symbol_body r)
  run_request (ticker s) = do a ← adapter; r ← a.get_ticker mt s; ok (ticker_body r)
  run_request (book_ticker s) = do a ← adapter; r ← a.get_book_ticker mt s; ok (book_ticker_body r)
  run_request (mark_price s) = do a ← adapter; r ← a.get_mark_price mt s; ok (mark_price_body r)
  run_request (orderbook s depth) = do
    a ← adapter
    r ← a.get_orderbook mt s depth
    ok (orderbook_body r)
  run_request (trades s limit) = do a ← adapter; r ← a.get_trades mt s limit; ok (trades_body r)
  run_request (agg_trades s start limit) = do
    a ← adapter
    r ← a.get_agg_trades mt s start limit
    ok (agg_trades_body r)
  run_request (candles s interval start limit) = do
    a ← adapter
    validate_interval a mt "candles" interval
    r ← a.get_candles mt s interval start limit
    ok (candles_body r)
  run_request (open_interest s period start limit) = do
    r ← get_open_interest F registry exchange mt s period start limit
    ok (open_interest_body r)
  run_request (funding_rate s start limit) = do
    a ← adapter
    r ← a.get_funding_rate mt s start limit
    ok (funding_rate_body r)
  run_request (liquidations s start limit) = do
    a ← adapter
    r ← a.get_liquidations mt s start limit
    ok (liquidations_body r)
  run_request (long_short_ratio s period start limit) = do
    a ← adapter
    validate_interval a mt "long_short_ratio" period
    r ← a.get_long_short_ratio mt s period start limit
    ok (long_short_ratio_body r)

  unfoldable pub handle : Request → Result (Body Float)
  unfolding run_request
  handle r = do guard (in_bound (bound_of r)) (http_exception 422); run_request r
