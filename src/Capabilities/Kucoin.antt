-- ===== src/Capabilities/Kucoin.antt =====
-- src/exchanges/kucoin/adapter.py: `_build_capabilities`, what the adapter offers on each market.
use exchange_router_service.Prelude.{String, true, false, some, [], ◌∷◌}
use exchange_router_service.Prelude.Int.{pos}
use exchange_router_service.Prelude.Dict.{Dict}
use exchange_router_service.Router.{RouteBlock, Capabilities, no_block}

abbrev pub spot_routes : Dict String RouteBlock
spot_routes =
    ("ticker", record no_block { rest = some true; ws = some true })
    ∷ ("book_ticker", record no_block { rest = some true; ws = some true })
    ∷ ("mark_price", record no_block { rest = some false; ws = some false })
    ∷ (
      "orderbook",
      record no_block {
        rest = some true;
        ws = some true;
        depths = some (pos 20 ∷ pos 100 ∷ []);
        max_depth = some 100;
      },
    )
    ∷ ("trades", record no_block { rest = some true; ws = some true; max_limit = some 100 })
    ∷ ("agg_trades", record no_block { rest = some false; ws = some false; paginated = some false })
    ∷ (
      "candles",
      record no_block {
        rest = some true;
        ws = some false;
        paginated = some true;
        intervals = some (
            "1m" ∷ "3m" ∷ "5m" ∷ "15m" ∷ "30m" ∷ "1h" ∷ "2h" ∷ "4h" ∷ "6h" ∷ "8h" ∷ "12h" ∷ "1d"
            ∷ "1w" ∷ []);
      },
    )
    ∷ (
      "funding_rate",
      record no_block { rest = some false; ws = some false; paginated = some false },
    )
    ∷ (
      "open_interest",
      record no_block { rest = some false; ws = some false; paginated = some false },
    )
    ∷ (
      "liquidations",
      record no_block { rest = some false; ws = some false; paginated = some false },
    )
    ∷ (
      "long_short_ratio",
      record no_block { rest = some false; ws = some false; paginated = some false },
    )
    ∷ []

abbrev pub linear_routes : Dict String RouteBlock
linear_routes =
    ("ticker", record no_block { rest = some true; ws = some true })
    ∷ ("book_ticker", record no_block { rest = some true; ws = some true })
    ∷ ("mark_price", record no_block { rest = some true; ws = some true })
    ∷ (
      "orderbook",
      record no_block {
        rest = some true;
        ws = some true;
        depths = some (pos 20 ∷ pos 100 ∷ []);
        max_depth = some 100;
      },
    )
    ∷ ("trades", record no_block { rest = some true; ws = some true; max_limit = some 100 })
    ∷ ("agg_trades", record no_block { rest = some false; ws = some false; paginated = some false })
    ∷ (
      "candles",
      record no_block {
        rest = some true;
        ws = some false;
        paginated = some true;
        intervals =
            some
              ("1m" ∷ "5m" ∷ "15m" ∷ "30m" ∷ "1h" ∷ "2h" ∷ "4h" ∷ "8h" ∷ "12h" ∷ "1d" ∷ "1w" ∷ []);
      },
    )
    ∷ ("funding_rate", record no_block { rest = some true; ws = some false; paginated = some true })
    ∷ (
      "open_interest",
      record no_block {
        rest = some true;
        ws = some false;
        paginated = some true;
        retention_ms = some 604_800_000;
        intervals = some ("5m" ∷ "15m" ∷ "30m" ∷ "1h" ∷ "4h" ∷ "1d" ∷ []);
      },
    )
    ∷ (
      "liquidations",
      record no_block { rest = some false; ws = some false; paginated = some false },
    )
    ∷ (
      "long_short_ratio",
      record no_block { rest = some false; ws = some false; paginated = some false },
    )
    ∷ []

abbrev pub inverse_routes : Dict String RouteBlock
inverse_routes =
    ("ticker", record no_block { rest = some true; ws = some true })
    ∷ ("book_ticker", record no_block { rest = some true; ws = some true })
    ∷ ("mark_price", record no_block { rest = some true; ws = some true })
    ∷ (
      "orderbook",
      record no_block {
        rest = some true;
        ws = some true;
        depths = some (pos 20 ∷ pos 100 ∷ []);
        max_depth = some 100;
      },
    )
    ∷ ("trades", record no_block { rest = some true; ws = some true; max_limit = some 100 })
    ∷ ("agg_trades", record no_block { rest = some false; ws = some false; paginated = some false })
    ∷ (
      "candles",
      record no_block {
        rest = some true;
        ws = some false;
        paginated = some true;
        intervals =
            some
              ("1m" ∷ "5m" ∷ "15m" ∷ "30m" ∷ "1h" ∷ "2h" ∷ "4h" ∷ "8h" ∷ "12h" ∷ "1d" ∷ "1w" ∷ []);
      },
    )
    ∷ ("funding_rate", record no_block { rest = some true; ws = some false; paginated = some true })
    ∷ (
      "open_interest",
      record no_block {
        rest = some true;
        ws = some false;
        paginated = some true;
        retention_ms = some 604_800_000;
        intervals = some ("5m" ∷ "15m" ∷ "30m" ∷ "1h" ∷ "4h" ∷ "1d" ∷ []);
      },
    )
    ∷ (
      "liquidations",
      record no_block { rest = some false; ws = some false; paginated = some false },
    )
    ∷ (
      "long_short_ratio",
      record no_block { rest = some false; ws = some false; paginated = some false },
    )
    ∷ []

abbrev pub capabilities : Capabilities
capabilities = ("spot", spot_routes) ∷ ("linear", linear_routes) ∷ ("inverse", inverse_routes) ∷ []
