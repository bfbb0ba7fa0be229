-- ===== src/Router/WebSocket/Endings.antt =====
-- How the connections of `websocket_endpoint` (src/main.py) end.
use exchange_router_service.Prelude.{
  ◌≡◌, refl, ◌⊎◌, inl, inr, String, Bool, true, false, not, ◌||◌, none, some, List, [], ◌∷◌,
  if◌then◌else◌, string_has_eq, Bool-cases, Option-cases,
}
use exchange_router_service.Prelude.Dict.{Dict, get}
use exchange_router_service.Models.{MarketType, market_value}
use exchange_router_service.Router.{Adapter, Capabilities, route_block, supports}
use exchange_router_service.StreamManager.{known_channel}
use exchange_router_service.Router.WebSocket.{
  Raised, timed_out, disconnected, broken, cancelled, Field, text, scalar, nested, shown_as,
  is_true, Handshake, raises, message, Received, some_text, ends, Key, Effect, accept, close,
  subscribe, unsubscribe, Run, is_on, key_parts, handled, at_last, leaves, returns, receive_loop,
  on_channel, on_message, on_handshake, connected, websocket_endpoint, subscribes,
}

-- From the subscriptions `held`, the effects lead to the subscriptions `rest`: each departure is that
-- of the last subscription that is left, and a subscription has a channel that opens a stream.
abbrev Matched : List Key → List Effect → List Key → Type 0
Matched held [] rest = held ≡ rest
Matched held (accept ∷ es) rest = Matched held es rest
Matched held (close code ∷ es) rest = Matched held es rest
Matched held (subscribe key channel ∷ es) rest =
    (known_channel channel ≡ true) × Matched (key ∷ held) es rest
Matched [] (unsubscribe key ∷ es) rest = true ≡ false
Matched (key' ∷ held) (unsubscribe key ∷ es) rest = (key ≡ key') × Matched held es rest

-- A 1003 or a 1008 is the only code that a connection is closed with.
abbrev pub Refused : List Effect → Type 0
Refused [] = Unit
Refused (close code ∷ es) = ((code ≡ 1003) ⊎ (code ≡ 1008)) × Refused es
Refused (e ∷ es) = Refused es

-- whether the loop of `receive_text` meets an exception
abbrev has_end : List Received → Bool
has_end [] = false
has_end (some_text ∷ events) = has_end events
has_end (ends raised ∷ events) = true

-- the key that a message asks for
abbrev pub asked_for : String → MarketType → Handshake → List Key
asked_for exchange mt (raises raised) = []
asked_for exchange mt (message channel symbol) =
    key_parts exchange mt (shown_as channel) (shown_as symbol) ∷ []

-- What a connection does is matched: when it is over no subscription is left, and while it is not, that of
-- `asked` is. It is over where it never subscribed, or where an exception came.
abbrev pub IsMatched : List Key → List Received → Run → Type 0
IsMatched asked events run =
    Matched [] run.0 (if run.1 then [] else asked)
    × Refused run.0
    × (run.1 ≡ not (subscribes run.0) || has_end events)

module _ (events : List Received) where
  returns-IsMatched : (asked : List Key) → IsMatched asked events (returns (close 1003 ∷ []))
  unfolding returns at_last
  returns-IsMatched asked = (refl, (inl refl, tt), refl)

  leaves-IsMatched :
      (asked : List Key) (raised : Raised) → IsMatched asked events (leaves none raised)
  unfolding leaves handled at_last
  leaves-IsMatched asked timed_out = (refl, (inr refl, tt), refl)
  leaves-IsMatched asked disconnected = (refl, tt, refl)
  leaves-IsMatched asked broken = (refl, tt, refl)
  leaves-IsMatched asked cancelled = (refl, tt, refl)

left_loop :
    (key : Key) (raised : Raised)
    → Matched (key ∷ []) (leaves (some key) raised).0 [] × Refused (leaves (some key) raised).0
unfolding leaves handled at_last
left_loop key timed_out = ((refl, refl), (inr refl, tt))
left_loop key disconnected = ((refl, refl), tt)
left_loop key broken = ((refl, refl), tt)
left_loop key cancelled = ((refl, refl), tt)

left_over : (key : Key) (raised : Raised) → (leaves (some key) raised).1 ≡ true
unfolding leaves
left_over key raised = refl

receive_loop-Matched :
    (key : Key) (events : List Received)
    → Matched
        (key ∷ [])
        (receive_loop key events).0
        (if (receive_loop key events).1 then [] else key ∷ [])
      × Refused (receive_loop key events).0
      × ((receive_loop key events).1 ≡ has_end events)
unfolding receive_loop
receive_loop-Matched key [] = (refl, tt, refl)
receive_loop-Matched key (some_text ∷ events) = receive_loop-Matched key events
receive_loop-Matched key (ends raised ∷ events) =
    let (m, r) = left_loop key raised in rw left_over (m, r, refl)

on_channel-IsMatched :
    (c : Capabilities) (exchange : String) (mt : MarketType) (channel symbol : String)
    (events : List Received)
    → known_channel channel ≡ true
    → IsMatched
        (key_parts exchange mt channel symbol ∷ [])
        events
        (on_channel c exchange mt channel symbol events)
unfolding on_channel
on_channel-IsMatched c exchange mt channel symbol events known =
    elim (Bool-cases (is_on (route_block c (market_value mt) channel).ws)) [
      | inl on ↦
          let (m, r, e) = receive_loop-Matched (key_parts exchange mt channel symbol) events in
          rw on ((known, m), r, e)
      | inr off ↦ rw off (returns-IsMatched events (key_parts exchange mt channel symbol ∷ []))
    ]

on_handshake-IsMatched :
    (c : Capabilities) (exchange : String) (mt : MarketType) (h : Handshake)
    (events : List Received)
    → IsMatched (asked_for exchange mt h) events (on_handshake c exchange mt h events)
unfolding on_handshake on_message
on_handshake-IsMatched c exchange mt (raises raised) events = leaves-IsMatched events [] raised
on_handshake-IsMatched c exchange mt (message channel symbol) events =
    elim (Bool-cases (not (is_true channel) || not (is_true symbol))) [
      | inl missing ↦
          rw missing (returns-IsMatched events (asked_for exchange mt (message channel symbol)))
      | inr there ↦ rw there (checked channel)
    ]
  where
    checked :
        (f : Field)
        → IsMatched
            (asked_for exchange mt (message f symbol))
            events
            (on_message c exchange mt f (shown_as symbol) events)
    checked (scalar truth shown) =
        returns-IsMatched events (asked_for exchange mt (message (scalar truth shown) symbol))
    checked (nested truth shown) =
        leaves-IsMatched events (asked_for exchange mt (message (nested truth shown) symbol)) broken
    checked (text s) = elim (Bool-cases (known_channel s)) [
      | inl known ↦ rw known (on_channel-IsMatched c exchange mt s (shown_as symbol) events known)
      | inr unknown ↦
          rw unknown (returns-IsMatched events (asked_for exchange mt (message (text s) symbol)))
    ]

module _ {Float : Type 0} where
  -- Whatever the first message is, and whatever comes after it: a connection that is over has left
  -- every subscription that it took, under the same key, whether it ended with a departure of the
  -- client, a timeout, another exception or a cancellation. One that is not over has the subscription
  -- that its message asked for, and no other. It is over exactly where it took none, or where such an
  -- ending came. A subscription has a channel that the handler task opens a stream for, and a close
  -- has the code 1003 or 1008.
  pub websocket_endpoint-IsMatched :
      (registry : Dict String (Adapter Float)) (exchange : String) (mt : MarketType) (h : Handshake)
      (events : List Received)
      → IsMatched
          (asked_for exchange mt h)
          events
          (websocket_endpoint registry exchange mt h events)
  unfolding websocket_endpoint connected
  websocket_endpoint-IsMatched registry exchange mt h events =
      elim (Option-cases (get exchange registry)) [
        | inl miss ↦ rw miss (refl, (inr refl, tt), refl)
        | inr (a, hit) ↦ rw hit (elim (Bool-cases (supports mt a.supported_market_types)) [
          | inr refused ↦ rw refused (refl, (inr refl, tt), refl)
          | inl market ↦ rw market (on_handshake-IsMatched a.capabilities exchange mt h events)
        ])
      ]
