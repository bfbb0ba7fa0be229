-- ===== src/Examples.antt =====
-- Sample data for the concrete runs of the theorems: whole numbers in place of `float`, a small
-- adapter and its registry.
mod Managers
mod Books
mod Hubs
mod Pages
mod Caches
mod Routes
mod Joins
mod Clients
mod Throttles
mod Pauses
mod Audits
mod Buckets
mod Bans
mod Shares
mod Deltas
mod Intervals
mod Spellings
mod Walks
mod Histories
mod Snapshots
use exchange_router_service.Prelude.{ℕ, String, Bool, Option, none, some, List, [], ◌∷◌, true}
use exchange_router_service.Prelude.Int.{ℤ, pos, ◌+ℤ◌, ◌-ℤ◌, ◌*ℤ◌, ltb_ℤ}
use exchange_router_service.Prelude.Dict.{Dict}
use exchange_router_service.Errors.{Result, ok, raise, not_implemented}
use exchange_router_service.Floats.{Floats}
use exchange_router_service.Models.{spot, linear}
use exchange_router_service.Router.{Adapter, RouteBlock, no_block}

abbrev pub integers : Floats
integers = record {
  Float = ℤ;
  add = ◌+ℤ◌;
  sub = ◌-ℤ◌;
  mul = ◌*ℤ◌;
  div = λ a b. a;
  of_int = λ n. n;
  trunc = λ a. ok a;
  lt = ltb_ℤ;
  parse = λ s. none;
}

abbrev pub candle_block : RouteBlock
candle_block = record no_block {
  rest = some true;
  ws = some true;
  paginated = some true;
  intervals = some ("1m" ∷ "1h" ∷ []);
}

-- an adapter with a linear market that answers no request
abbrev pub sample : Adapter ℤ
sample = record {
  name = "sample";
  supported_market_types = linear ∷ [];
  capabilities =
      (
        "linear",
        ("candles", candle_block)
            ∷ ("trades", candle_block)
            ∷ ("open_interest", candle_block)
            ∷ ("long_short_ratio", candle_block)
            ∷ [],
      )
      ∷ [];
  get_exchange_info = λ m. raise not_implemented;
  get_symbol_info = λ m s. raise not_implemented;
  get_ticker = λ m s. raise not_implemented;
  get_book_ticker = λ m s. raise not_implemented;
  get_mark_price = λ m s. raise not_implemented;
  get_orderbook = λ m s d. raise not_implemented;
  get_trades = λ m s l. raise not_implemented;
  get_agg_trades = λ m s t l. raise not_implemented;
  get_candles = λ m s i t l. raise not_implemented;
  get_open_interest = λ m s i t l. raise not_implemented;
  get_funding_rate = λ m s t l. raise not_implemented;
  get_liquidations = λ m s t l. raise not_implemented;
  get_long_short_ratio = λ m s p t l. raise not_implemented;
}

abbrev pub samples : Dict String (Adapter ℤ)
samples = ("sample", sample) ∷ []
