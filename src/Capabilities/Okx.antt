-- ===== src/Capabilities/Okx.antt =====
-- src/exchanges/okx/adapter.py: `_build_capabilities`, what the adapter offers on each market.
use exchange_router_service.Prelude.{String, true, false, some, [], ◌∷◌}
use exchange_router_service.Prelude.Dict.{Dict}
use exchange_router_service.Router.{RouteBlock, Capabilities, no_block}

abbrev pub spot_routes : Dict String RouteBlock
spot_routes =
    ("ticker", record no_block { rest = some true; ws = some true })
    ∷ ("book_ticker", record no_block { rest = some true; ws = some true })
    ∷ ("mark_price", record no_block { rest = some false; ws = some false })
    ∷ ("orderbook", record no_block { rest = some true; ws = some true; max_depth = some 400 })
    ∷ ("trades", record no_block { rest = some true; ws = some true; max_limit = some 100 })
    ∷ ("agg_trades", record no_block { rest = some false; ws = some false; paginated = some false })
    ∷ (
      "candles",
      record no_block {
        rest = some true;
        ws = some false;
        paginated = some true;
        intervals = some (
            "1m" ∷ "3m" ∷ "5m" ∷ "15m" ∷ "30m" ∷ "1h" ∷ "2h" ∷ "4h" ∷ "6h" ∷ "12h" ∷ "1d" ∷ "1w"
            ∷ "1M" ∷ []);
      },
    )
    ∷ (
      "funding_rate",
      record no_block { rest = some false; ws = some false; paginated = some false },
    )
    ∷ (
      "open_interest",
      record no_block { rest = some false; ws = some false; paginated = some false },
    )
    ∷ (
      "liquidations",
      record no_block { rest = some false; ws = some false; paginated = some false },
    )
    ∷ (
      "long_short_ratio",
      record no_block { rest = some false; ws = some false; paginated = some false },
    )
    ∷ []

abbrev pub linear_routes : Dict String RouteBlock
linear_routes =
    ("ticker", record no_block { rest = some true; ws = some true })
    ∷ ("book_ticker", record no_block { rest = some true; ws = some true })
    ∷ ("mark_price", record no_block { rest = some true; ws = some true })
    ∷ ("orderbook", record no_block { rest = some true; ws = some true; max_depth = some 400 })
    ∷ ("trades", record no_block { rest = some true; ws = some true; max_limit = some 100 })
    ∷ ("agg_trades", record no_block { rest = some false; ws = some false; paginated = some false })
    ∷ (
      "candles",
      record no_block {
        rest = some true;
        ws = some false;
        paginated = some true;
        intervals = some (
            "1m" ∷ "3m" ∷ "5m" ∷ "15m" ∷ "30m" ∷ "1h" ∷ "2h" ∷ "4h" ∷ "6h" ∷ "12h" ∷ "1d" ∷ "1w"
            ∷ "1M" ∷ []);
      },
    )
    ∷ (
      "funding_rate",
      record no_block {
        rest = some true;
        ws = some false;
        paginated = some true;
        max_limit = some 300;
        retention_ms = some 7_776_000_000;
      },
    )
    ∷ (
      "open_interest",
      record no_block {
        rest = some true;
        ws = some false;
        paginated = some true;
        retention_ms = some 2_592_000_000;
        intervals = some ("5m" ∷ "15m" ∷ "30m" ∷ "1h" ∷ "2h" ∷ "4h" ∷ "6h" ∷ "12h" ∷ "1d" ∷ []);
      },
    )
    ∷ (
      "liquidations",
      record no_block {
        rest = some true;
        ws = some true;
        paginated = some true;
        max_limit = some 100;
        retention_ms = some 86_400_000;
        completeness = some "partial";
      },
    )
    ∷ (
      "long_short_ratio",
      record no_block {
        rest = some true;
        ws = some false;
        paginated = some true;
        retention_ms = some 2_592_000_000;
        intervals = some ("5m" ∷ "1h" ∷ "1d" ∷ []);
      },
    )
    ∷ []

abbrev pub inverse_routes : Dict String RouteBlock
inverse_routes =
    ("ticker", record no_block { rest = some true; ws = some true })
    ∷ ("book_ticker", record no_block { rest = some true; ws = some true })
    ∷ ("mark_price", record no_block { rest = some true; ws = some true })
    ∷ ("orderbook", record no_block { rest = some true; ws = some true; max_depth = some 400 })
    ∷ ("trades", record no_block { rest = some true; ws = some true; max_limit = some 100 })
    ∷ ("agg_trades", record no_block { rest = some false; ws = some false; paginated = some false })
    ∷ (
      "candles",
      record no_block {
        rest = some true;
        ws = some false;
        paginated = some true;
        intervals = some (
            "1m" ∷ "3m" ∷ "5m" ∷ "15m" ∷ "30m" ∷ "1h" ∷ "2h" ∷ "4h" ∷ "6h" ∷ "12h" ∷ "1d" ∷ "1w"
            ∷ "1M" ∷ []);
      },
    )
    ∷ (
      "funding_rate",
      record no_block {
        rest = some true;
        ws = some false;
        paginated = some true;
        max_limit = some 300;
        retention_ms = some 7_776_000_000;
      },
    )
    ∷ (
      "open_interest",
      record no_block {
        rest = some true;
        ws = some false;
        paginated = some true;
        retention_ms = some 2_592_000_000;
        intervals = some ("5m" ∷ "15m" ∷ "30m" ∷ "1h" ∷ "2h" ∷ "4h" ∷ "6h" ∷ "12h" ∷ "1d" ∷ []);
      },
    )
    ∷ (
      "liquidations",
      record no_block {
        rest = some true;
        ws = some true;
        paginated = some true;
        max_limit = some 100;
        retention_ms = some 86_400_000;
        completeness = some "partial";
      },
    )
    ∷ (
      "long_short_ratio",
      record no_block {
        rest = some true;
        ws = some false;
        paginated = some true;
        retention_ms = some 2_592_000_000;
        intervals = some ("5m" ∷ "1h" ∷ "1d" ∷ []);
      },
    )
    ∷ []

abbrev pub capabilities : Capabilities
capabilities = ("spot", spot_routes) ∷ ("linear", linear_routes) ∷ ("inverse", inverse_routes) ∷ []
