-- ===== src/Examples/Hubs.antt =====
-- Runs of `StreamHub` (src/exchanges/base.py): a queue of two messages on one topic.
use exchange_router_service.Prelude.{
  ℕ, String, ◌≡◌, refl, Option, none, some, List, [], ◌∷◌, ◌++◌, last_n, string_has_eq, arith,
}
use exchange_router_service.Prelude.Dict.{get, put}
use exchange_router_service.StreamHub.{Hub, register, announce, send_payloads}
use exchange_router_service.StreamHub.Broadcast.{dispatch_all, routed}
use exchange_router_service.StreamHub.Reach.{
  new_hub, Reach, here, next, registers, announces, window_of_reachable, no_orphan_topic,
}

abbrev hub : Hub ℕ
hub = announce "trades" (register "trades" (new_hub 2))

hub-Reach : Reach 2 hub
unfolding register get put
hub-Reach = next (next here (registers "trades")) (announces "trades" 0 refl)

abbrev evs : List (Option String × ℕ)
evs =
    (some "trades", 1)
    ∷ (none, 9)
    ∷ (some "trades", 2)
    ∷ (some "ticker", 8)
    ∷ (some "trades", 3)
    ∷ []

window_of_reachable_example :
    (dispatch_all evs hub).content 0 ≡ last_n hub.queue_size (hub.content 0 ++ routed "trades" evs)
unfolding register announce send_payloads get put
window_of_reachable_example = window_of_reachable "trades" 0 evs hub-Reach (ground arith) refl

no_orphan_topic_example : (q : ℕ) × (qs : List ℕ) × (get "trades" hub.queues ≡ some (q ∷ qs))
unfolding register announce send_payloads get put
no_orphan_topic_example = no_orphan_topic "trades" hub-Reach refl
