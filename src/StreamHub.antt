-- ===== src/StreamHub.antt =====
-- src/exchanges/base.py: `StreamHub`, one upstream connection whose messages are routed by topic
-- into bounded queues. Queues are numbered objects, so that `x is not q` compares numbers; the
-- content of a queue is the list of its messages, oldest first. Every section between two awaits is
-- one transition.
pub mod Broadcast
pub mod Topics
pub mod Steps
pub mod Reach
pub mod Backoff
use exchange_router_service.Prelude.{
  ℕ, suc, ◌+◌, ◌*◌, min, String, Bool, true, false, ◌&&◌, not, Option, none, some, List, [], ◌∷◌,
  ◌++◌, map, length, leb, ltb, nat_eq, str_eq, is_some, if◌then◌else◌, nat_has_eq, string_has_eq,
}
use exchange_router_service.Prelude.Dict.{Dict, get, put, pop, keys}

module _ {Msg : Type 0} where
  -- `put_nowait` on an `asyncio.Queue(maxsize)`; `none` is `QueueFull`. A size of 0 means no bound.
  unfoldable pub put_nowait : ℕ → Msg → List Msg → Option (List Msg)
  put_nowait maxsize msg q =
      if ltb 0 maxsize && leb maxsize (length q) then none else some (q ++ msg ∷ [])

  -- `get_nowait`; `none` is `QueueEmpty`
  unfoldable pub get_nowait : List Msg → Option (List Msg)
  get_nowait [] = none
  get_nowait (x ∷ q) = some q

  abbrev pub or_else : Option (List Msg) → List Msg → List Msg
  or_else none q = q
  or_else (some r) q = r

  -- the body of `for q in queues`: a full queue loses its oldest message
  unfoldable pub offer : ℕ → Msg → List Msg → List Msg
  unfolding put_nowait get_nowait
  offer maxsize msg q = elim (put_nowait maxsize msg q) [
    | some r ↦ r
    | none ↦ let q' = or_else (get_nowait q) q in or_else (put_nowait maxsize msg q') q'
  ]

-- the two kinds of payload
pub data Payload : Type 0 where
  subscribe_payload : List String → Payload
  unsubscribe_payload : List String → Payload

-- `queues` holds, for each topic, the ids of its queues.
pub record Hub (Msg : Type 0) : Type 0 where
  pub queue_size : ℕ
  pub queues : Dict String (List ℕ)
  pub subscribed_topics : List String
  -- `_ws` is set
  pub has_ws : Bool
  -- the event `_connected`
  pub connected : Bool
  pub closed : Bool
  pub has_task : Bool
  pub next_queue : ℕ
  pub content : ℕ → List Msg
  -- the payloads handed to the upstream connection, in order
  pub sent : List Payload

unfoldable pub mem_topic : String → List String → Bool
mem_topic t [] = false
mem_topic t (x ∷ xs) = if str_eq x t then true else mem_topic t xs

unfoldable pub discard : String → List String → List String
discard t [] = []
discard t (x ∷ xs) = let rest = discard t xs in if str_eq x t then rest else x ∷ rest

unfoldable pub without : ℕ → List ℕ → List ℕ
without q [] = []
without q (x ∷ xs) = let rest = without q xs in if nat_eq x q then rest else x ∷ rest

abbrev pub or_nil {ℓ} : {A : Type ℓ} → Option (List A) → List A
or_nil none = []
or_nil (some l) = l

module _ {Msg : Type 0} where
  -- `_send_payloads`: nothing is sent without a connection
  unfoldable pub send_payloads : Payload → Hub Msg → Hub Msg
  send_payloads payload h = if h.has_ws then record h { sent = h.sent ++ payload ∷ [] } else h

  -- `subscribe`, first section: the new queue joins its topic
  unfoldable pub register : String → Hub Msg → Hub Msg
  register topic h = record h {
    queues = put topic (or_nil (get topic h.queues) ++ h.next_queue ∷ []) h.queues;
    has_task = if h.closed then h.has_task else true;
    next_queue = h.next_queue + 1;
    content = λ q. if nat_eq h.next_queue q then [] else h.content q;
  }

  abbrev pub is_new_topic : String → Hub Msg → Bool
  is_new_topic topic h = not (is_some (get topic h.queues))

  -- `subscribe`, second section, for a new topic once the connection is there
  unfoldable pub announce : String → Hub Msg → Hub Msg
  unfolding send_payloads mem_topic
  announce topic h =
      if mem_topic topic h.subscribed_topics
      then h
      else send_payloads (subscribe_payload (topic ∷ []))
          (record h { subscribed_topics = topic ∷ h.subscribed_topics })

  -- `unsubscribe`
  unfoldable pub unsubscribe : String → ℕ → Hub Msg → Hub Msg
  unfolding send_payloads discard without
  unsubscribe topic q h = elim (without q (or_nil (get topic h.queues))) [
    | [] ↦
        let h' = record h {
          queues = pop topic h.queues;
          subscribed_topics = discard topic h.subscribed_topics;
        } in
        if h.connected then send_payloads (unsubscribe_payload (topic ∷ [])) h' else h'
    | x ∷ qs ↦ record h { queues = put topic (x ∷ qs) h.queues }
  ]

  resubscribe : List String → Hub Msg → Hub Msg
  unfolding send_payloads
  resubscribe [] h = h
  resubscribe (x ∷ xs) h = send_payloads (subscribe_payload (x ∷ xs)) h

  -- `_run` after `_connect`: all topics that have a queue are subscribed anew
  unfoldable pub connect : Hub Msg → Hub Msg
  unfolding resubscribe
  connect h =
      resubscribe (keys h.queues) (record h { has_ws = true; subscribed_topics = keys h.queues })

  -- `_run` once those payloads are sent
  unfoldable pub set_connected : Hub Msg → Hub Msg
  set_connected h = record h { connected = true }

  -- `_run`, the `finally` block
  unfoldable pub disconnect : Hub Msg → Hub Msg
  disconnect h = record h { connected = false; has_ws = false }

  -- `close`
  unfoldable pub close : Hub Msg → Hub Msg
  close h = record h { closed = true; has_task = false }

  -- the loop `for q in queues`
  unfoldable pub offer_all : ℕ → Msg → List ℕ → (ℕ → List Msg) → ℕ → List Msg
  unfolding offer
  offer_all size msg [] content = content
  offer_all size msg (q ∷ qs) content =
      offer_all size msg qs (λ p. if nat_eq q p then offer size msg (content p) else content p)

  -- one message that `_parse` accepted and `_route` gave a topic, or dropped
  unfoldable pub dispatch : Option String → Msg → Hub Msg → Hub Msg
  unfolding offer_all
  dispatch none msg h = h
  dispatch (some topic) msg h = record h {
    content = offer_all h.queue_size msg (or_nil (get topic h.queues)) h.content;
  }

  -- a subscriber's `await q.get()` that returns (`_ws_connect` of the adapters): the queue loses its
  -- oldest message
  unfoldable pub take_message : ℕ → Hub Msg → Hub Msg
  unfolding get_nowait
  take_message q h = record h {
    content =
        λ p. if nat_eq q p then or_else (get_nowait (h.content p)) (h.content p) else h.content p;
  }

-- the wait before a reconnection, doubled up to 30 seconds
unfoldable pub next_delay : ℕ → ℕ
next_delay delay = min (delay * 2) 30

-- The waits of `_run` over a run of connections: `true` is one that brought a message, which sets
-- the delay back to 1.
unfoldable pub waits : ℕ → List Bool → List ℕ
unfolding next_delay
waits delay [] = []
waits delay (stable ∷ sessions) =
    let d = if stable then 1 else delay in d ∷ waits (next_delay d) sessions
