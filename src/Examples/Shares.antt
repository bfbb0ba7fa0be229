-- ===== src/Examples/Shares.antt =====
-- Runs of `_acquire_topic` and `_release_topic` of src/exchanges/hyperliquid/adapter.py.
use exchange_router_service.Prelude.{ℕ, ◌≡◌, refl, [], arith, string_has_eq}
use exchange_router_service.Prelude.Dict.{get, put, pop}
use exchange_router_service.StreamHub.{mem_topic, discard}
use exchange_router_service.Hyperliquid.Topics.{
  Shares, no_shares, acquire_topic, release_topic, free_hub, add, discard_at,
}
use exchange_router_service.Hyperliquid.Topics.Sharing.{Held, one_more, one_less, IsValid}
use exchange_router_service.Hyperliquid.Topics.Acquire.{Acquired}
use exchange_router_service.Hyperliquid.Topics.Holders.{
  Reach, begin, acquires, releases, shares-IsValid, acquire_topic_of_reachable,
}

abbrev nobody : Held
nobody t = 0

-- two streams of a topic, one of which ends
abbrev first : Shares ℕ
unfolding acquire_topic free_hub add
first = (acquire_topic "trades:BTC" 1 no_shares).1

abbrev second : Shares ℕ
unfolding acquire_topic free_hub add
second = (acquire_topic "trades:BTC" 1 first).1

abbrev third : Shares ℕ
unfolding release_topic discard_at
third = release_topic "trades:BTC" second

abbrev holders : Held
holders = one_less "trades:BTC" (one_more "trades:BTC" (one_more "trades:BTC" nobody))

history : Reach holders third
unfolding acquire_topic free_hub get put add mem_topic release_topic third
history =
    releases "trades:BTC" (acquires "trades:BTC" 1 0 (acquires "trades:BTC" 1 0 begin refl) refl)
      (ground arith)

shares-IsValid_example : IsValid holders third
shares-IsValid_example = shares-IsValid history

acquire_topic_of_reachable_example :
    Acquired "trades:ETH" holders third (acquire_topic "trades:ETH" 2 third)
acquire_topic_of_reachable_example = acquire_topic_of_reachable "trades:ETH" 2 history

last_test : (release_topic "trades:BTC" third).topic_refs ≡ []
unfolding release_topic acquire_topic free_hub get put pop add mem_topic discard_at discard
last_test = refl
