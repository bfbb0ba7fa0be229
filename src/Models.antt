-- ===== src/Models.antt =====
-- src/models.py: the normalized schema. A pydantic class is a record; its `model_validator` is a
-- function that raises, and constructing the class runs it.
pub mod Validators
pub mod Values
pub mod Explained
use exchange_router_service.Prelude.{
  ℕ, ◌≡◌, ◌↔◌, arith, Eq, String, Bool, true, false, ◌&&◌, not, Option, none, some, List, str_eq,
  is_some, if◌then◌else◌,
}
use exchange_router_service.Prelude.Int.{ℤ, ltb_ℤ}
use exchange_router_service.Errors.{Result, ok, raise, validation_error, guard, ◌>>=◌, ◌>>◌}

pub data MarketType : Type 0 where
  spot linear inverse : MarketType

unfoldable pub market_eq : MarketType → MarketType → Bool
market_eq spot spot = true
market_eq linear linear = true
market_eq inverse inverse = true
market_eq _ _ = false

pub market_eq_iff : (a b : MarketType) → (market_eq a b ≡ true) ↔ (a ≡ b)
unfolding market_eq
market_eq_iff a b = ground arith

instance abbrev pub market_has_eq : Eq MarketType
market_has_eq = record { same = market_eq; same_iff = market_eq_iff }

-- `MarketType.value`
unfoldable pub market_value : MarketType → String
market_value spot = "spot"
market_value linear = "linear"
market_value inverse = "inverse"

pub data UsdMethod : Type 0 where
  close contract_size candle_close : UsdMethod

pub data QtyUnit : Type 0 where
  base contract : QtyUnit

pub data FundingKind : Type 0 where
  discrete continuous : FundingKind

pub data Side : Type 0 where
  buy sell : Side

pub record FundingConvention : Type 0 where
  pub kind : FundingKind

module _ (Float : Type 0) where
  pub record UsdBasis : Type 0 where
    pub method : UsdMethod
    pub close : Option Float
    pub close_ts : Option ℤ

  pub record QtyValue : Type 0 where
    pub native : Float
    pub unit : QtyUnit
    pub contract_size : Option Float
    pub usd : Float

  pub record VolumeValue : Type 0 where
    pub native : Float
    pub unit : QtyUnit
    pub contract_size : Option Float
    pub usd : Float
    pub usd_basis : UsdBasis

  pub record OiValue : Type 0 where
    pub native : Float
    pub unit : QtyUnit
    pub contract_size : Option Float
    pub usd : Option Float
    pub usd_basis : UsdBasis

  pub record FundingCurrent : Type 0 where
    pub kind : FundingKind
    pub per_cycle : Float
    pub cycle_ms : ℤ
    pub valid_until_ts : ℤ

  pub record FundingHistorical : Type 0 where
    pub kind : FundingKind
    pub per_cycle : Float
    pub cycle_ms : ℤ

  pub record SymbolInfo : Type 0 where
    pub symbol : String
    pub native_symbol : String
    pub base_asset : String
    pub quote_asset : String
    pub price_precision : ℤ
    pub quantity_precision : ℤ
    pub min_qty : Option Float
    pub max_qty : Option Float
    pub min_notional : Option Float
    pub qty_unit : QtyUnit
    pub contract_size : Option Float
    pub funding : Option FundingConvention

  pub record Ticker : Type 0 where
    pub symbol : String
    pub market_type : MarketType
    pub quote : String
    pub price : Float
    pub open_24h : Float
    pub high_24h : Float
    pub low_24h : Float
    pub volume_24h : VolumeValue
    pub price_change_percent : Float
    pub timestamp : ℤ

  pub record BookTicker : Type 0 where
    pub symbol : String
    pub market_type : MarketType
    pub quote : String
    pub bid_price : Float
    pub bid_qty : QtyValue
    pub ask_price : Float
    pub ask_qty : QtyValue
    pub timestamp : ℤ

  pub record MarkPrice : Type 0 where
    pub symbol : String
    pub market_type : MarketType
    pub quote : String
    pub mark_price : Float
    pub index_price : Option Float
    pub funding : Option FundingCurrent
    pub timestamp : ℤ

  pub record Trade : Type 0 where
    pub id : Option String
    pub symbol : String
    pub market_type : MarketType
    pub quote : String
    pub price : Float
    pub qty : QtyValue
    pub side : Side
    pub timestamp : ℤ

  pub record AggTrade : Type 0 where
    pub agg_id : String
    pub symbol : String
    pub market_type : MarketType
    pub quote : String
    pub price : Float
    pub qty : QtyValue
    pub first_trade_id : String
    pub last_trade_id : String
    pub side : Side
    pub timestamp : ℤ

  pub record Candle : Type 0 where
    pub symbol : String
    pub market_type : MarketType
    pub quote : String
    pub interval : String
    pub timestamp : ℤ
    pub open_price : Float
    pub high : Float
    pub low : Float
    pub close : Float
    pub volume : VolumeValue

  pub record OrderBook : Type 0 where
    pub symbol : String
    pub market_type : MarketType
    pub quote : String
    pub bids : List (List Float)
    pub asks : List (List Float)
    pub qty_unit : QtyUnit
    pub timestamp : ℤ

  pub record FundingRate : Type 0 where
    pub symbol : String
    pub market_type : MarketType
    pub quote : String
    pub rate : FundingHistorical
    pub timestamp : ℤ

  pub record OpenInterest : Type 0 where
    pub symbol : String
    pub market_type : MarketType
    pub quote : String
    pub interval : String
    pub open_interest : OiValue
    pub timestamp : ℤ

  pub record Liquidation : Type 0 where
    pub symbol : String
    pub market_type : MarketType
    pub quote : String
    pub side : Side
    pub price : Float
    pub qty : QtyValue
    pub timestamp : ℤ

pub data AccountScope : Type 0 where
  top_traders all_accounts opaque : AccountScope

pub record LongShortRatio (Float : Type 0) : Type 0 where
  pub symbol : String
  pub market_type : MarketType
  pub interval : String
  pub ratio : Float
  pub long_account : Option Float
  pub short_account : Option Float
  pub account_scope : AccountScope
  pub timestamp : ℤ
