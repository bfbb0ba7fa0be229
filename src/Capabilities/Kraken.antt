-- ===== src/Capabilities/Kraken.antt =====
-- src/exchanges/kraken/adapter.py: `_build_capabilities`, what the adapter offers on each market.
use exchange_router_service.Prelude.{String, true, false, some, [], ◌∷◌}
use exchange_router_service.Prelude.Dict.{Dict}
use exchange_router_service.Router.{RouteBlock, Capabilities, no_block}

abbrev pub spot_routes : Dict String RouteBlock
spot_routes =
    ("ticker", record no_block { rest = some true; ws = some true })
    ∷ ("book_ticker", record no_block { rest = some true; ws = some true })
    ∷ ("mark_price", record no_block { rest = some false; ws = some false })
    ∷ ("orderbook", record no_block { rest = some true; ws = some true; max_depth = some 500 })
    ∷ ("trades", record no_block { rest = some true; ws = some true; max_limit = some 1000 })
    ∷ ("agg_trades", record no_block { rest = some false; ws = some false; paginated = some false })
    ∷ (
      "candles",
      record no_block {
        rest = some true;
        ws = some false;
        paginated = some false;
        max_limit = some 720;
        intervals = some ("1m" ∷ "5m" ∷ "15m" ∷ "30m" ∷ "1h" ∷ "4h" ∷ "1d" ∷ "1w" ∷ []);
      },
    )
    ∷ (
      "funding_rate",
      record no_block { rest = some false; ws = some false; paginated = some false },
    )
    ∷ (
      "open_interest",
      record no_block { rest = some false; ws = some false; paginated = some false },
    )
    ∷ (
      "liquidations",
      record no_block { rest = some false; ws = some false; paginated = some false },
    )
    ∷ (
      "long_short_ratio",
      record no_block { rest = some false; ws = some false; paginated = some false },
    )
    ∷ []

abbrev pub linear_routes : Dict String RouteBlock
linear_routes =
    ("ticker", record no_block { rest = some true; ws = some true })
    ∷ ("book_ticker", record no_block { rest = some true; ws = some true })
    ∷ ("mark_price", record no_block { rest = some true; ws = some true })
    ∷ ("orderbook", record no_block { rest = some true; ws = some true; max_depth = some 500 })
    ∷ ("trades", record no_block { rest = some true; ws = some true; max_limit = some 100 })
    ∷ ("agg_trades", record no_block { rest = some false; ws = some false; paginated = some false })
    ∷ (
      "candles",
      record no_block {
        rest = some true;
        ws = some false;
        paginated = some true;
        intervals = some ("1m" ∷ "5m" ∷ "15m" ∷ "30m" ∷ "1h" ∷ "4h" ∷ "12h" ∷ "1d" ∷ "1w" ∷ []);
      },
    )
    ∷ ("funding_rate", record no_block { rest = some true; ws = some false; paginated = some true })
    ∷ (
      "open_interest",
      record no_block {
        rest = some true;
        ws = some false;
        paginated = some true;
        intervals = some ("1m" ∷ "5m" ∷ "15m" ∷ "30m" ∷ "1h" ∷ "4h" ∷ "12h" ∷ "1d" ∷ []);
      },
    )
    ∷ (
      "liquidations",
      record no_block { rest = some false; ws = some false; paginated = some false },
    )
    ∷ (
      "long_short_ratio",
      record no_block {
        rest = some true;
        ws = some false;
        paginated = some true;
        intervals = some ("1m" ∷ "5m" ∷ "15m" ∷ "30m" ∷ "1h" ∷ "4h" ∷ "12h" ∷ "1d" ∷ []);
      },
    )
    ∷ []

abbrev pub inverse_routes : Dict String RouteBlock
inverse_routes =
    ("ticker", record no_block { rest = some true; ws = some true })
    ∷ ("book_ticker", record no_block { rest = some true; ws = some true })
    ∷ ("mark_price", record no_block { rest = some true; ws = some true })
    ∷ ("orderbook", record no_block { rest = some true; ws = some true; max_depth = some 500 })
    ∷ ("trades", record no_block { rest = some true; ws = some true; max_limit = some 100 })
    ∷ ("agg_trades", record no_block { rest = some false; ws = some false; paginated = some false })
    ∷ (
      "candles",
      record no_block {
        rest = some true;
        ws = some false;
        paginated = some true;
        intervals = some ("1m" ∷ "5m" ∷ "15m" ∷ "30m" ∷ "1h" ∷ "4h" ∷ "12h" ∷ "1d" ∷ "1w" ∷ []);
      },
    )
    ∷ ("funding_rate", record no_block { rest = some true; ws = some false; paginated = some true })
    ∷ (
      "open_interest",
      record no_block {
        rest = some true;
        ws = some false;
        paginated = some true;
        intervals = some ("1m" ∷ "5m" ∷ "15m" ∷ "30m" ∷ "1h" ∷ "4h" ∷ "12h" ∷ "1d" ∷ []);
      },
    )
    ∷ (
      "liquidations",
      record no_block { rest = some false; ws = some false; paginated = some false },
    )
    ∷ (
      "long_short_ratio",
      record no_block {
        rest = some true;
        ws = some false;
        paginated = some true;
        intervals = some ("1m" ∷ "5m" ∷ "15m" ∷ "30m" ∷ "1h" ∷ "4h" ∷ "12h" ∷ "1d" ∷ []);
      },
    )
    ∷ []

abbrev pub capabilities : Capabilities
capabilities = ("spot", spot_routes) ∷ ("linear", linear_routes) ∷ ("inverse", inverse_routes) ∷ []
