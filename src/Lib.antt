-- ===== src/Lib.antt =====
-- The Exchange Router Service and its Python client: a gateway that serves the market data of several
-- exchanges in one schema, over HTTP and over websockets.
--
-- The parts and how they meet. The handlers of src/main.py validate a request against the registry
-- of adapters and its capability tables, call one method of the adapter and answer its rows;
-- `open_interest` asks for candles too and joins the two. A websocket connection subscribes to a key
-- of `StreamManager` (src/stream_manager.py), which keeps one upstream task per key and fans its
-- items out. The adapter behind a stream takes its messages from a `StreamHub` (src/exchanges/base.py),
-- one upstream connection with a bounded queue per subscriber. The adapter of an exchange asks its
-- upstream through its own `_make_request`, which keeps to the limits of that exchange, and gathers the
-- pages of a series with `_paginate_backwards`. The client asks the service, retries, and checks a call
-- against the capabilities beforehand.
--
-- Prelude (with Tests, Lists, Int, Dict, Sort, Newest): Python's integers, dictionaries and stable sort.
-- Errors: the exceptions of the service, and results that may raise. Floats: `float` as a parameter.
-- Models: src/models.py, with its validators in Models.Validators; Models.Values the builders of
--   src/exchanges/base.py, Models.Explained what the notional of a value means.
-- StreamManager: src/stream_manager.py. A state is a `Manager`; a section under the lock, or between
--   two awaits, is one function (`subscribe`, `unsubscribe`, `shutdown`; `start`, `deliver`, `sent`,
--   `stream_end` and `finish` are the stages of `_upstream_handler`). Clients has the abstract view,
--   Invariant and Steps the invariant, Reach all interleavings, Ended how streams end.
-- StreamHub: the class of src/exchanges/base.py, in the same way; Broadcast has the queues, Topics
--   and Steps the invariant, Reach the interleavings, Backoff the waits between connections.
-- Adapter: Pagination is `_paginate_backwards`, InfoCache `_ensure_info_cache`, Timestamps
--   `normalize_timestamp`.
-- Router: src/main.py. Routes has the market data routes (`handle`), Refusals what they refuse, OiRoute
--   and OiJoin the route of the open interest, Periods `_period_to_ms`, Status the exception handlers,
--   WebSocket `websocket_endpoint` (Endings how its connections end), Overview the routes that list
--   exchanges and markets.
-- Client: client/exchange_router_client. Errors is errors.py; Requests and Retries (`_request`), Preflight
--   (`_preflight`, `_ensure_capabilities`), Batch and Gathered (`fetch_many`) and Streams (`stream`) are _core.py
--   and batch.py; Service holds the client against the exception handlers of main.py.
-- Kraken: src/exchanges/kraken/adapter.py, how requests are paced (`await_throttle`, `set_backoff`; Runs,
--   Spacing and Patience have what they promise) and tried again (Requests, Attempts),
--   the books of `stream_orderbook` (Book, BookLevels, BookDeltas, BookView), and the walk over the
--   candles of the futures markets (Candles, with Walks, Newest and Returns).
-- Binance: src/exchanges/binance/adapter.py, `_make_request`: the pauses of a host (Pauses) and the
--   end of the loop (Retries).
-- Upstream: the request loops of the adapters that keep one backoff for all requests (`rounds`), and how
--   they end (Ends). Bybit, Okx.Requests, Kucoin and Hyperliquid give the verdicts and the pauses of
--   `_make_request` of src/exchanges/bybit, okx, kucoin and hyperliquid/adapter.py; Bybit.Bans has the bans.
-- Okx: `_RateBucket` (RateWindow, Patience), the symbols (Symbols, with Symbols.RoundTrip) and the
--   candles (Candles, with Joined and Shape) of src/exchanges/okx/adapter.py. Symbols: the operations on
--   texts that the symbols are made of.
-- Hyperliquid.Topics: how src/exchanges/hyperliquid/adapter.py shares topics out among its connections
--   (`acquire_topic`, `release_topic`); Sharing has the invariant, Acquire what a call does,
--   Holders the histories of the streams that hold topics.
--   Hyperliquid.Snapshots: its caches of answers (`_ctx_snapshot`, `_high_low_24h_cached`), with the
--   histories of their calls in Single.
-- Deltas: the books that `stream_orderbook` of src/exchanges/bybit and okx/adapter.py keep from numbered
--   deltas; Levels, Gaps and Runs are the parts of Follow.
-- Capabilities: the capability tables of all adapters (`_build_capabilities`) and `_interval_to_ms`;
--   Advertised and Spelled hold them against main.py and against the maps of intervals
--   (Kraken.Intervals, Kucoin.Intervals).
-- Auditor: tools/auditor/aggregator.py, the counts.
-- Examples: runs on concrete data.
--
-- Bounds and fuel. The loop of `_paginate_backwards` has the source's own bound of 100 requests. The
-- client's retry loop runs on fuel `max_retries + 1`, one unit a request, and is proved never to run
-- out. Kraken's `for attempt in range(max_retries)` and `for _ in range(20)` are recursion on the rounds
-- that are left. Binance's `while` runs on fuel, of which four units are enough unless a reply is not
-- counted, and so do the loops of Upstream. The loop of `_RateBucket.acquire` runs on fuel, one unit a
-- turn, of which three are enough for a caller that nobody disturbs.
-- Integers are unbounded, as Python's are; sizes and limits that the source keeps positive are ℕ.
--
-- Not modelled: what the adapters of the single exchanges parse, whose answers are the fields of the
-- record `Adapter`; pandas frames; the probes of the auditor; logging and message texts; sleeps, which
-- are time that passes and no more. Floating point numbers are an abstract type, so no theorem rests
-- on their arithmetic. Events of asyncio, sockets and clocks are arguments of the steps, so that every
-- order and every outcome of them is covered.
pub mod Adapter
pub mod Auditor
pub mod Binance
pub mod Bybit
pub mod Capabilities
pub mod Client
pub mod Deltas
pub mod Errors
pub mod Examples
pub mod Floats
pub mod Hyperliquid
pub mod Kraken
pub mod Kucoin
pub mod Models
pub mod Okx
pub mod Prelude
pub mod Router
pub mod StreamHub
pub mod StreamManager
pub mod Symbols
pub mod Upstream
