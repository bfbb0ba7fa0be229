-- ===== src/Router/WebSocket.antt =====
-- src/main.py: `websocket_endpoint`. What a connection does is the list of its effects, in order.
pub mod Endings
use exchange_router_service.Prelude.{
  ℕ, ◌≡◌, String, Bool, true, false, ◌&&◌, ◌||◌, not, Option, none, some, List, [], ◌∷◌, ◌++◌,
  str_eq, str_eq_iff, if◌then◌else◌, string_has_eq, arith, refl, Bool-cases, inl, inr,
}
use exchange_router_service.Prelude.Dict.{Dict, get}
use exchange_router_service.Models.{MarketType, market_value}
use exchange_router_service.Router.{Adapter, Capabilities, route_block, supports}
use exchange_router_service.StreamManager.{known_channel}

-- What the `try` block may raise: a `TimeoutError`, a `WebSocketDisconnect`, another `Exception`, or
-- the cancellation of the task.
pub data Raised : Type 0 where
  timed_out disconnected broken cancelled : Raised

-- A field of the first message: a text; another value that can be hashed, or one that cannot, each
-- with its truth and its text in an f-string. A missing field is `None`, which is false.
pub data Field : Type 0 where
  text : String → Field
  scalar : Bool → String → Field
  nested : Bool → String → Field

-- what the first message comes to: an exception (one that is no JSON, or no object, raises too), or
-- its fields `channel` and `symbol`
pub data Handshake : Type 0 where
  raises : Raised → Handshake
  message : Field → Field → Handshake

-- what `receive_text` comes to
pub data Received : Type 0 where
  some_text : Received
  ends : Raised → Received

abbrev pub Key : Type 0
Key = String × String × String × String

pub data Effect : Type 0 where
  accept : Effect
  close : ℕ → Effect
  -- `stream_manager.subscribe` and `unsubscribe`; the channel and the symbol are in the key too
  subscribe : Key → String → Effect
  unsubscribe : Key → Effect

-- What a connection has done, and whether it is over.
abbrev pub Run : Type 0
Run = List Effect × Bool

-- the truth of a value
abbrev pub is_true : Field → Bool
is_true (text s) = not (str_eq s "")
is_true (scalar truth shown) = truth
is_true (nested truth shown) = truth

abbrev pub shown_as : Field → String
shown_as (text s) = s
shown_as (scalar truth shown) = shown
shown_as (nested truth shown) = shown

abbrev pub is_on : Option Bool → Bool
is_on none = false
is_on (some b) = b

-- The exchange, the market, the channel and the symbol: the key joins them with colons.
abbrev pub key_parts : String → MarketType → String → String → Key
key_parts exchange mt channel symbol = (exchange, market_value mt, channel, symbol)

-- the `except` clauses
unfoldable pub handled : Raised → List Effect
handled timed_out = close 1008 ∷ []
handled disconnected = []
handled broken = []
handled cancelled = []

-- the `finally` block: `key` and `client_id` are set once there is a subscription
unfoldable pub at_last : Option Key → List Effect
at_last none = []
at_last (some key) = unsubscribe key ∷ []

-- the `try` block ends with an exception, or returns
unfoldable pub leaves : Option Key → Raised → Run
unfolding handled at_last
leaves key raised = (handled raised ++ at_last key, true)

unfoldable pub returns : List Effect → Run
unfolding at_last
returns effects = (effects ++ at_last none, true)

-- the loop of `receive_text`, on what comes; when no more has come it is still in the loop
unfoldable pub receive_loop : Key → List Received → Run
unfolding leaves
receive_loop key [] = ([], false)
receive_loop key (some_text ∷ events) = receive_loop key events
receive_loop key (ends raised ∷ events) = leaves (some key) raised

abbrev pub and_before : List Effect → Run → Run
and_before effects run = (effects ++ run.0, run.1)

-- the check of the capabilities, and what follows it
unfoldable pub on_channel :
    Capabilities → String → MarketType → String → String → List Received → Run
unfolding receive_loop returns
on_channel capabilities exchange mt channel symbol events =
    if not (is_on (route_block capabilities (market_value mt) channel).ws)
    then returns (close 1003 ∷ [])
    else and_before (subscribe (key_parts exchange mt channel symbol) channel ∷ [])
        (receive_loop (key_parts exchange mt channel symbol) events)

-- `channel not in KNOWN_WS_CHANNELS`, and what follows it; a value that cannot be hashed is a
-- `TypeError` there
unfoldable pub on_message :
    Capabilities → String → MarketType → Field → String → List Received → Run
unfolding on_channel leaves returns
on_message capabilities exchange mt (text channel) symbol events =
    if known_channel channel
    then on_channel capabilities exchange mt channel symbol events
    else returns (close 1003 ∷ [])
on_message capabilities exchange mt (scalar truth shown) symbol events = returns (close 1003 ∷ [])
on_message capabilities exchange mt (nested truth shown) symbol events = leaves none broken

unfoldable pub on_handshake : Capabilities → String → MarketType → Handshake → List Received → Run
unfolding on_message leaves returns
on_handshake capabilities exchange mt (raises raised) events = leaves none raised
on_handshake capabilities exchange mt (message channel symbol) events =
    if not (is_true channel) || not (is_true symbol)
    then returns (close 1003 ∷ [])
    else on_message capabilities exchange mt channel (shown_as symbol) events

abbrev pub subscribes : List Effect → Bool
subscribes [] = false
subscribes (accept ∷ es) = subscribes es
subscribes (close code ∷ es) = subscribes es
subscribes (subscribe key channel ∷ es) = true
subscribes (unsubscribe key ∷ es) = subscribes es

-- the conditions on a message, read off the message and the capabilities
abbrev pub is_served : Capabilities → MarketType → Handshake → Bool
is_served capabilities mt (raises raised) = false
is_served capabilities mt (message (scalar truth shown) symbol) = false
is_served capabilities mt (message (nested truth shown) symbol) = false
is_served capabilities mt (message (text channel) symbol) =
    known_channel channel
    && is_true symbol
    && is_on (route_block capabilities (market_value mt) channel).ws

on_handshake-subscribes :
    (c : Capabilities) (exchange : String) (mt : MarketType) (h : Handshake)
    (events : List Received)
    → subscribes (on_handshake c exchange mt h events).0 ≡ is_served c mt h
unfolding on_handshake on_message on_channel leaves handled at_last returns
on_handshake-subscribes c exchange mt (raises timed_out) events = refl
on_handshake-subscribes c exchange mt (raises disconnected) events = refl
on_handshake-subscribes c exchange mt (raises broken) events = refl
on_handshake-subscribes c exchange mt (raises cancelled) events = refl
on_handshake-subscribes c exchange mt (message (scalar truth shown) symbol) events = ground arith
on_handshake-subscribes c exchange mt (message (nested truth shown) symbol) events = ground arith
on_handshake-subscribes c exchange mt (message (text channel) symbol) events =
    elim (Bool-cases (str_eq channel "")) [
      | inl e ↦ let e' : channel ≡ "" = (str_eq_iff channel "").0 e in rw e' refl
      | inr e ↦ rw e (elim (Bool-cases (is_true symbol)) [
        | inr missing ↦ rw missing (ground arith)
        | inl there ↦ rw there (elim (Bool-cases (known_channel channel)) [
          | inr unknown ↦ rw unknown refl
          | inl known ↦
              rw known (elim (Bool-cases (is_on (route_block c (market_value mt) channel).ws)) [
                | inl on ↦ rw on refl
                | inr off ↦ rw off refl
              ])
        ])
      ])
    ]

module _ {Float : Type 0} where
  abbrev pub connected :
      Option (Adapter Float) → String → MarketType → Handshake → List Received → Run
  unfolding on_handshake
  connected none exchange mt h events = (close 1008 ∷ [], true)
  connected (some a) exchange mt h events =
      if supports mt a.supported_market_types
      then and_before (accept ∷ []) (on_handshake a.capabilities exchange mt h events)
      else (close 1008 ∷ [], true)

  unfoldable pub websocket_endpoint :
      Dict String (Adapter Float) → String → MarketType → Handshake → List Received → Run
  websocket_endpoint registry exchange mt h events =
      connected (get exchange registry) exchange mt h events

  -- For a registered exchange and a supported market, a connection subscribes exactly when its
  -- message names a known channel that the capabilities offer over websockets and a symbol that is
  -- true: a text that is not empty, or another JSON value that is not empty, zero, false or null.
  pub subscribes-websocket_endpoint :
      (registry : Dict String (Adapter Float)) (exchange : String) (mt : MarketType) (h : Handshake)
      (events : List Received) (a : Adapter Float)
      → get exchange registry ≡ some a
      → supports mt a.supported_market_types ≡ true
      → subscribes (websocket_endpoint registry exchange mt h events).0
        ≡ is_served a.capabilities mt h
  unfolding websocket_endpoint connected
  subscribes-websocket_endpoint registry exchange mt h events a hit market =
      rw hit (rw market (on_handshake-subscribes a.capabilities exchange mt h events))
