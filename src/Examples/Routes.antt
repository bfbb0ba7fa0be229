-- ===== src/Examples/Routes.antt =====
-- Runs of the request handlers and of `websocket_endpoint` (src/main.py) on the sample registry.
use exchange_router_service.Prelude.{List, true, ◌≡◌, refl, none, [], ◌∷◌, string_has_eq}
use exchange_router_service.Prelude.Int.{pos}
use exchange_router_service.Prelude.Dict.{get}
use exchange_router_service.Errors.{raise, value_error, http_exception}
use exchange_router_service.Models.{spot, linear, market_value, market_eq}
use exchange_router_service.Router.{supports, mem_text, route_block}
use exchange_router_service.Router.Routes.{handle, orderbook}
use exchange_router_service.Router.Refusals.{
  timed, open_interest_route, handle_refused, interval_refused,
}
use exchange_router_service.Router.WebSocket.{
  Received, accept, subscribe, unsubscribe, on_handshake, on_message, on_channel, receive_loop,
  leaves, at_last, handled, some_text, ends, disconnected, text, Handshake, message,
  websocket_endpoint, subscribes, is_served, subscribes-websocket_endpoint,
}
use exchange_router_service.Router.WebSocket.Endings.{
  IsMatched, asked_for, websocket_endpoint-IsMatched,
}
use exchange_router_service.Examples.{integers, sample, samples}

handle_refused_example :
    handle integers samples "sample" spot (orderbook "BTC" (pos 5)) ≡ raise (http_exception 400)
unfolding get supports market_eq
handle_refused_example =
    handle_refused integers samples "sample" spot (orderbook "BTC" (pos 5)) 400 refl

interval_refused_example :
    handle integers samples "sample" linear (timed open_interest_route "BTC" "7m" none (pos 9))
    ≡ raise value_error
unfolding get supports mem_text market_eq route_block market_value
interval_refused_example =
    interval_refused integers samples "sample" linear open_interest_route sample "BTC" "7m" "1m"
      ("1h" ∷ []) none (pos 9) refl refl refl refl refl

abbrev asks : Handshake
asks = message (text "trades") (text "BTC")

-- the client says something, and leaves
abbrev visit : List Received
visit = some_text ∷ ends disconnected ∷ []

subscribes-websocket_endpoint_example :
    subscribes (websocket_endpoint samples "sample" linear asks visit).0
    ≡ is_served sample.capabilities linear asks
unfolding get supports market_eq
subscribes-websocket_endpoint_example =
    subscribes-websocket_endpoint samples "sample" linear asks visit sample refl refl

websocket_endpoint-IsMatched_example :
    IsMatched
      (asked_for "sample" linear asks)
      visit
      (websocket_endpoint samples "sample" linear asks visit)
websocket_endpoint-IsMatched_example =
    websocket_endpoint-IsMatched samples "sample" linear asks visit

-- a visit that is served: a subscription and the departure from it
visit_test : websocket_endpoint samples "sample" linear asks visit ≡ (
  accept
      ∷ subscribe ("sample", "linear", "trades", "BTC") "trades"
      ∷ unsubscribe ("sample", "linear", "trades", "BTC")
      ∷ [],
  true,
)
unfolding websocket_endpoint on_handshake on_message on_channel receive_loop leaves at_last handled
    get supports market_eq route_block market_value
visit_test = refl

-- a message without a symbol
abbrev asks_nothing : Handshake
asks_nothing = message (text "trades") (text "")
